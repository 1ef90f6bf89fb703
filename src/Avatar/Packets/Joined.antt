-- ===== src/Avatar/Packets/Joined.antt =====
-- frame/webapp/core/avatar.ts, `updatePeerMovement`: what it makes of packets that a server joined.
use frame_oldbackend_public.Prelude.{
  ℕ, zero, suc, ◌-◌, ◌≤◌, ◌≡◌, refl, ◌∙◌, List, [], ◌∷◌, ◌++◌, Option, none, some, false,
  Option-cases, arith, if◌then◌else◌, opt_eq, ltb, inl, inr, eq_iff,
}
use frame_oldbackend_public.Prelude.Maps.{Map, insert, lookup, lookup-insert}
use frame_oldbackend_public.Prelude.Entries.{IsDistinct, insert-IsDistinct}
use frame_oldbackend_public.Prelude.Lists.{
  length, take, drop, get_or, take-append, drop-append, length-append, get_or-append,
}
use frame_oldbackend_public.Types.{Guid}
use frame_oldbackend_public.Avatar.Packets.{
  Buffer, array_buffer_to_uuid, packet_size, Unpacked, unpacked, unpack_one, unpack,
  packed_binary_to_map,
}

-- The uuid and the packet of each peer, one after the other.
abbrev pub joined : List (Buffer × Buffer) → Buffer
joined [] = []
joined ((uuid, packet) ∷ rest) = uuid ++ (packet ++ joined rest)

-- Each uuid has 16 bytes, and each packet the size that its header says.
abbrev pub AreWhole : List (Buffer × Buffer) → Type 0
AreWhole [] = Unit
AreWhole ((uuid, packet) ∷ rest) =
    (length uuid ≡ 16) × (length packet ≡ packet_size packet) × AreWhole rest

-- The last packet that stands under a uuid.
abbrev pub latest : Guid → List (Buffer × Buffer) → Option Buffer
latest id [] = none
latest id ((uuid, packet) ∷ rest) = elim (latest id rest) [
  | some newer ↦ some newer
  | none ↦ if opt_eq (array_buffer_to_uuid uuid) (some id) then some packet else none
]

pub array_buffer_to_uuid-whole :
    (uuid : Buffer) → length uuid ≡ 16 → (id : Guid) × (array_buffer_to_uuid uuid ≡ some id)
unfolding array_buffer_to_uuid
array_buffer_to_uuid-whole uuid h = elim (Option-cases (array_buffer_to_uuid uuid)) [
  | inl e ↦ absurd (ground arith)
  | inr (id, e) ↦ (id, e)
]

pub packet_size_bounds : (packet : Buffer) → 36 ≤ packet_size packet
unfolding packet_size
packet_size_bounds packet = ground arith

packet_size-append :
    (packet rest : Buffer)
    → length packet ≡ packet_size packet
    → packet_size (packet ++ rest) ≡ packet_size packet
unfolding packet_size
packet_size-append packet rest h =
    let long : 2 ≤ length packet = omega (arith, packet_size_bounds packet) in
    go (get_or-append packet rest 0 0 (omega arith)) (get_or-append packet rest 1 0 (omega arith))
  where
    go :
        get_or (packet ++ rest) 0 0 ≡ get_or packet 0 0
        → get_or (packet ++ rest) 1 0 ≡ get_or packet 1 0
        → packet_size (packet ++ rest) ≡ packet_size packet
    go e f = rw (packet_size, e, f) refl

-- The round for one peer.
pub unpack_one-joined :
    (again : Buffer → Map Buffer → Unpacked) (uuid packet rest : Buffer) (id : Guid)
    (m : Map Buffer)
    → length uuid ≡ 16
    → length packet ≡ packet_size packet
    → array_buffer_to_uuid uuid ≡ some id
    → unpack_one again (uuid ++ (packet ++ rest)) m ≡ again rest (insert id packet m)
unfolding unpack_one
unpack_one-joined again uuid packet rest id m h k named =
    let head : take 16 (uuid ++ (packet ++ rest)) ≡ uuid = take-append uuid (packet ++ rest) 16 h in
    let after : drop 16 (uuid ++ (packet ++ rest)) ≡ packet ++ rest =
      drop-append uuid (packet ++ rest) 16 h in
    let size : packet_size (packet ++ rest) ≡ packet_size packet =
      packet_size-append packet rest k in
    let long : ltb (length (packet ++ rest)) 2 ≡ false =
      ground (arith, length-append packet rest, packet_size_bounds packet) in
    let first : take (packet_size packet - 0) (packet ++ rest) ≡ packet =
      take-append packet rest (packet_size packet - 0) (omega (arith, k)) in
    let last : drop (packet_size packet) (packet ++ rest) ≡ rest =
      drop-append packet rest (packet_size packet) k in
    rw (head, named, unpack_one, after, long, if◌then◌else◌, size, first, last) refl

-- What a lookup finds after the entries are stored over a map.
abbrev found : Guid → List (Buffer × Buffer) → Map Buffer → Option Buffer
found id entries m = elim (latest id entries) [ some packet ↦ some packet | none ↦ lookup id m ]

found-insert :
    (id own : Guid) (uuid packet : Buffer) (rest : List (Buffer × Buffer)) (m : Map Buffer)
    → array_buffer_to_uuid uuid ≡ some own
    → found id rest (insert own packet m) ≡ found id ((uuid, packet) ∷ rest) m
found-insert id own uuid packet rest m named =
    ground (arith, lookup-insert own id packet m, eq_iff own id)

unpack-joined :
    (fuel : ℕ) (entries : List (Buffer × Buffer)) (m : Map Buffer)
    → AreWhole entries
    → length (joined entries) ≤ fuel
    → IsDistinct m
    → (m' : Map Buffer) × (unpack fuel (joined entries) m ≡ unpacked m')
      × IsDistinct m'
      × ((id : Guid) → lookup id m' ≡ found id entries m)
unfolding unpack
unpack-joined fuel [] m whole h distinct = (m, refl, distinct, λ id. refl)
unpack-joined fuel (([], packet) ∷ rest) m whole h distinct = absurd (omega arith)
unpack-joined zero ((b ∷ bs, packet) ∷ rest) m whole h distinct = absurd (omega arith)
unpack-joined (suc fuel) ((b ∷ bs, packet) ∷ rest) m whole h distinct =
    let (own, named) = array_buffer_to_uuid-whole (b ∷ bs) whole.0 in
    let short : length (joined rest) ≤ fuel =
      omega (arith, length-append bs (packet ++ joined rest), length-append packet (joined rest)) in
    let (m', e, d, finds) =
      unpack-joined fuel rest (insert own packet m) whole.2 short
        (insert-IsDistinct own packet m distinct) in
    (
      m',
      unpack_one-joined (unpack fuel) (b ∷ bs) packet (joined rest) own m whole.0 whole.1 named ∙ e,
      d,
      λ id. finds id ∙ found-insert id own (b ∷ bs) packet rest m named,
    )

-- A buffer in which a server joined whole packets is taken apart into a map without a double key
-- that holds, for each uuid, the last packet that stands under it, and nothing else.
pub packed_binary_to_map-latest :
    (entries : List (Buffer × Buffer))
    → AreWhole entries
    → (m : Map Buffer) × (packed_binary_to_map (joined entries) ≡ unpacked m)
      × IsDistinct m
      × ((id : Guid) → lookup id m ≡ latest id entries)
unfolding packed_binary_to_map lookup
packed_binary_to_map-latest entries whole =
    let (m, e, d, finds) =
      unpack-joined (length (joined entries)) entries [] whole (omega arith) tt in
    (m, e, d, λ id. finds id ∙ same (latest id entries))
  where
    same : (o : Option Buffer) → (elim o [ some packet ↦ some packet | none ↦ none ]) ≡ o
    same none = refl
    same (some packet) = refl
