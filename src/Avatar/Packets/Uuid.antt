-- ===== src/Avatar/Packets/Uuid.antt =====
-- frame/webapp/core/avatar.ts, `arrayBufferToUuid`: a uuid's text stands for its bytes.
use Prim.Native.Char.{Char, code}
use frame_oldbackend_public.Prelude.{
  ℕ, zero, suc, ◌+◌, ◌*◌, ◌≤◌, ◌-◌, ◌/◌, ◌%◌, ◌<◌, String, Bool, true, ◌&&◌, some, [], ◌∷◌, arith,
  if◌then◌else◌, nat_eq, Bool-cases, inl, inr, leb, ◌≡◌, refl, ◌∙◌, sym, ap,
}
use frame_oldbackend_public.Prelude.Lists.{length, take, drop, length-take, length-drop, rejoin}
use frame_oldbackend_public.Avatar.Packets.{
  Buffer, slice, hex_digit, byte_to_hex, hex, dash, array_buffer_to_uuid,
}

-- Every number of the buffer is a byte.
abbrev pub AreBytes : Buffer → Type 0
AreBytes [] = Unit
AreBytes (b ∷ bytes) = (b < 256) × AreBytes bytes

hex_value : Char → ℕ
hex_value c = if leb (code c) 57 then code c - 48 else code c - 87

-- Whether the value of each digit under a bound is the number that it stands for.
are_digits : ℕ → Bool
are_digits zero = true
are_digits (suc bound) = are_digits bound && nat_eq (hex_value (hex_digit bound)) bound

hex_value-are_digits :
    (bound : ℕ) → are_digits bound ≡ true → (n : ℕ) → n < bound → hex_value (hex_digit n) ≡ n
unfolding are_digits
hex_value-are_digits zero all n below = absurd (omega arith)
hex_value-are_digits (suc bound) all n below = elim (Bool-cases (nat_eq n bound)) [
  | inl e ↦ ground arith
  | inr e ↦ hex_value-are_digits bound (ground arith) n (ground arith)
]

sixteen_are_digits : are_digits 16 ≡ true
unfolding are_digits hex_value hex_digit
sixteen_are_digits = refl

hex_value-hex_digit : (n : ℕ) → n < 16 → hex_value (hex_digit n) ≡ n
hex_value-hex_digit = hex_value-are_digits 16 sixteen_are_digits

head : String → Char
head String.[] = "0"
head (String.◌∷◌ c s) = c

tail : String → String
tail String.[] = String.[]
tail (String.◌∷◌ c s) = s

-- The byte at the head of a text of digits.
byte_of : String → ℕ
unfolding head tail
byte_of s = 16 * hex_value (head s) + hex_value (head (tail s))

byte_of-byte_to_hex : (b : ℕ) (s : String) → b < 256 → byte_of (byte_to_hex b s) ≡ b
unfolding byte_of byte_to_hex
byte_of-byte_to_hex b s h =
    omega (
      arith,
      hex_value-hex_digit (b / 16) (omega arith),
      hex_value-hex_digit (b % 16) (omega arith),
    )

tail-tail : (b : ℕ) (s : String) → tail (tail (byte_to_hex b s)) ≡ s
unfolding tail byte_to_hex
tail-tail b s = refl

hex-injective :
    (xs ys : Buffer) (s t : String)
    → length xs ≡ length ys
    → AreBytes xs
    → AreBytes ys
    → hex xs s ≡ hex ys t
    → (xs ≡ ys) × (s ≡ t)
unfolding hex
hex-injective [] [] s t l p q e = (refl, e)
hex-injective [] (b ∷ ys) s t l p q e = absurd (omega arith)
hex-injective (a ∷ xs) [] s t l p q e = absurd (omega arith)
hex-injective (a ∷ xs) (b ∷ ys) s t l p q e =
    let one : a ≡ b =
      sym (byte_of-byte_to_hex a (hex xs s) p.0)
      ∙ ap byte_of e
      ∙ byte_of-byte_to_hex b (hex ys t) q.0 in
    let rest : hex xs s ≡ hex ys t =
      sym (tail-tail a (hex xs s)) ∙ ap (λ x. tail (tail x)) e ∙ tail-tail b (hex ys t) in
    let (same, last) = hex-injective xs ys s t (omega arith) p.1 q.1 rest in (cc, last)

take-AreBytes : (n : ℕ) (xs : Buffer) → AreBytes xs → AreBytes (take n xs)
take-AreBytes zero xs h = tt
take-AreBytes (suc n) [] h = tt
take-AreBytes (suc n) (x ∷ xs) h = (h.0, take-AreBytes n xs h.1)

drop-AreBytes : (n : ℕ) (xs : Buffer) → AreBytes xs → AreBytes (drop n xs)
drop-AreBytes zero xs h = h
drop-AreBytes (suc n) [] h = tt
drop-AreBytes (suc n) (x ∷ xs) h = drop-AreBytes n xs h.1

-- A part of the text, and what follows it.
part-injective :
    (start size : ℕ) (xs ys : Buffer) (s t : String)
    → start + size ≤ length xs
    → length xs ≡ length ys
    → AreBytes xs
    → AreBytes ys
    → hex (take size (drop start xs)) s ≡ hex (take size (drop start ys)) t
    → (take size (drop start xs) ≡ take size (drop start ys)) × (s ≡ t)
part-injective start size xs ys s t fits same p q e =
    hex-injective (take size (drop start xs)) (take size (drop start ys)) s t
      (length-part xs fits ∙ sym (length-part ys (omega arith)))
      (take-AreBytes size (drop start xs) (drop-AreBytes start xs p))
      (take-AreBytes size (drop start ys) (drop-AreBytes start ys q)) e
  where
    length-part : (l : Buffer) → start + size ≤ length l → length (take size (drop start l)) ≡ size
    length-part l h = length-take size (drop start l) (omega (arith, length-drop start l))

drop_all : (xs ys : Buffer) (n : ℕ) → length xs ≡ n → length ys ≡ n → drop n xs ≡ drop n ys
drop_all [] [] n p q = refl
drop_all [] (y ∷ ys) n p q = absurd (omega arith)
drop_all (x ∷ xs) [] n p q = absurd (omega arith)
drop_all (x ∷ xs) (y ∷ ys) zero p q = absurd (omega arith)
drop_all (x ∷ xs) (y ∷ ys) (suc n) p q = drop_all xs ys n (omega arith) (omega arith)

-- The text of the parts, from its dashes on.
uuid_text : Buffer → String
uuid_text b = hex (slice 0 4 b) (
    dash (
      hex (slice 4 6 b) (
        dash
          (hex (slice 6 8 b) (dash (hex (slice 8 10 b) (dash (hex (slice 10 16 b) String.[]))))))))

uuid_text-injective :
    (xs ys : Buffer)
    → length xs ≡ 16
    → length ys ≡ 16
    → AreBytes xs
    → AreBytes ys
    → uuid_text xs ≡ uuid_text ys
    → xs ≡ ys
unfolding uuid_text tail
uuid_text-injective xs ys m n p q e =
    let same = m ∙ sym n in
    let (e0, r0) = part-injective 0 4 xs ys _ _ (omega arith) same p q e in
    let (e1, r1) = part-injective 4 2 xs ys _ _ (omega arith) same p q (ap tail r0) in
    let (e2, r2) = part-injective 6 2 xs ys _ _ (omega arith) same p q (ap tail r1) in
    let (e3, r3) = part-injective 8 2 xs ys _ _ (omega arith) same p q (ap tail r2) in
    let (e4, r4) = part-injective 10 6 xs ys _ _ (omega arith) same p q (ap tail r3) in
    rejoin 0 4 xs ys e0 (
      rejoin 4 2 xs ys e1
        (rejoin 6 2 xs ys e2 (rejoin 8 2 xs ys e3 (rejoin 10 6 xs ys e4 (drop_all xs ys 16 m n)))))

array_buffer_to_uuid-some :
    (xs : Buffer) (u : String)
    → array_buffer_to_uuid xs ≡ some u
    → (length xs ≡ 16) × (uuid_text xs ≡ u)
unfolding array_buffer_to_uuid uuid_text
array_buffer_to_uuid-some xs u e = ground arith

-- Two buffers of bytes that have the same text as a uuid are the same.
pub array_buffer_to_uuid-injective :
    (xs ys : Buffer) (u : String)
    → AreBytes xs
    → AreBytes ys
    → array_buffer_to_uuid xs ≡ some u
    → array_buffer_to_uuid ys ≡ some u
    → xs ≡ ys
array_buffer_to_uuid-injective xs ys u p q e f =
    let (m, a) = array_buffer_to_uuid-some xs u e in
    let (n, b) = array_buffer_to_uuid-some ys u f in uuid_text-injective xs ys m n p q (a ∙ sym b)
