-- ===== src/Avatar/Sending/Changes.antt =====
-- frame/webapp/core/avatar.ts, `participate`: which movements reach the regional movement server.
use frame_oldbackend_public.Prelude.{
  ℕ, Bool, true, false, List, [], ◌∷◌, ◌++◌, ◌≡◌, refl, sym, ◌∙◌, ◌≢◌, inl, inr, arith, Bool-cases,
  nat_eq,
}
use frame_oldbackend_public.Prelude.Lists.{length}
use frame_oldbackend_public.Avatar.Packets.{Buffer}
use frame_oldbackend_public.Avatar.Sending.{equal, Outgoing, send_regional, send_all}
use mathlib.Core.List.{append_assoc, append-nil}

-- Of the movements after a first one, the list holds each one that differs from the one before it.
pub data Changes : Buffer → List Buffer → List Buffer → Type 0 where
  done : (last : Buffer) → Changes last [] []
  same :
      {last : Buffer} {movements sent : List Buffer}
      → Changes last movements sent
      → Changes last (last ∷ movements) sent
  changed :
      {last movement : Buffer} {movements sent : List Buffer}
      → last ≢ movement
      → Changes movement movements sent
      → Changes last (movement ∷ movements) (movement ∷ sent)

-- Every movement has the length.
abbrev pub AreOfLength : ℕ → List Buffer → Type 0
AreOfLength n [] = Unit
AreOfLength n (movement ∷ movements) = (length movement ≡ n) × AreOfLength n movements

equal_sound : (xs ys : Buffer) → equal xs ys ≡ true → xs ≡ ys
unfolding equal
equal_sound [] [] h = refl
equal_sound [] (y ∷ ys) h = ground arith
equal_sound (x ∷ xs) [] h = ground arith
equal_sound (x ∷ xs) (y ∷ ys) h = ground (arith, equal_sound xs ys)

equal_refl : (xs : Buffer) → equal xs xs ≡ true
unfolding equal
equal_refl [] = refl
equal_refl (x ∷ xs) = ground (arith, equal_refl xs)

equal_apart : (xs ys : Buffer) → equal xs ys ≡ false → xs ≢ ys
equal_apart xs ys h e = ground (arith, equal_refl ys)

send_regional-same :
    (is_open : Bool) (movement : Buffer) (o : Outgoing)
    → equal o.current_movement movement ≡ true
    → send_regional is_open movement o ≡ o
unfolding send_regional
send_regional-same is_open movement o e = rw e refl

send_regional-changed :
    (movement : Buffer) (o : Outgoing)
    → equal o.current_movement movement ≡ false
    → length movement ≡ length o.current_movement
    → send_regional true movement o
      ≡ record o { current_movement = movement; sent = o.sent ++ (movement ∷ []) }
unfolding send_regional
send_regional-changed movement o e same_length =
    let kept : nat_eq (length o.current_movement) (length movement) ≡ true = ground arith in
    rw (e, kept) refl

-- While the websocket of the movement server is open, and the movements have the length of the buffer
-- that is kept as the current movement: what is newly sent are, in order, exactly the movements that
-- differ from the one before, where the first one is compared with the buffer that is kept.
pub send_all-Changes :
    (movements : List Buffer) (o : Outgoing)
    → AreOfLength (length o.current_movement) movements
    → (sent : List Buffer) × Changes o.current_movement movements sent
      × ((send_all movements o).sent ≡ o.sent ++ sent)
unfolding send_all
send_all-Changes [] o h = ([], done o.current_movement, sym (append-nil o.sent))
send_all-Changes (movement ∷ movements) o (same_length, h) =
    elim (Bool-cases (equal o.current_movement movement)) [
      | inl e ↦
          let (sent, c, f) = send_all-Changes movements o h in
          rw
            (
              send_all,
              send_regional-same true movement o e,
              ← equal_sound o.current_movement movement e,
            )
            (sent, same c, f)
      | inr e ↦
          let o' = record o { current_movement = movement; sent = o.sent ++ (movement ∷ []) } in
          let (sent, c, f) = send_all-Changes movements o' (rw same_length h) in
          rw (send_all, send_regional-changed movement o e same_length)
            (
              movement ∷ sent,
              changed (equal_apart o.current_movement movement e) c,
              f ∙ append_assoc o.sent (movement ∷ []) sent,
            )
    ]

-- The websocket is not open, for the first time, and a movement differs from the buffer that is kept as
-- the current movement and has its length: it is not sent, and it is not sent either when it comes
-- again and the websocket is open.
pub send_regional-lost :
    (movement : Buffer) (o : Outgoing)
    → length movement ≡ length o.current_movement
    → o.current_movement ≢ movement
    → o.warned ≡ false
    → let o' = send_regional false movement o in
      (o'.sent ≡ o.sent) × (send_regional true movement o' ≡ o')
unfolding send_regional
send_regional-lost movement o same_length apart first =
    let kept : nat_eq (length o.current_movement) (length movement) ≡ true = ground arith in
    let differs : equal o.current_movement movement ≡ false =
      elim (Bool-cases (equal o.current_movement movement)) [
        | inl e ↦ absurd (apart (equal_sound o.current_movement movement e))
        | inr e ↦ e
      ] in
    rw (differs, first, kept) (refl, rw (equal_refl movement) refl)
