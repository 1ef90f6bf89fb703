-- ===== src/Avatar/Packets/Delivered.antt =====
-- frame/webapp/core/avatar.ts, `updatePeerMovement`: what the handler is called with.
use frame_oldbackend_public.Prelude.{
  ℕ, zero, suc, ◌≤◌, ◌≡◌, refl, ap, ◌∙◌, ◌↔◌, ◌⊎◌, leb, ◌&&◌, ◌||◌, List, [], ◌∷◌, ◌++◌, none, some,
  true, false, arith, if◌then◌else◌, ltb, inl, inr, ◌==◌, eq_iff, Bool,
}
use frame_oldbackend_public.Prelude.Maps.{Map, insert, lookup}
use frame_oldbackend_public.Prelude.Entries.{IsDistinct}
use frame_oldbackend_public.Prelude.Lists.{length, length-append}
use frame_oldbackend_public.Types.{Guid}
use frame_oldbackend_public.Movement.Fields.{full_packet}
use frame_oldbackend_public.Movement.Transport.{Floats, Packet, Sent, get_16, has_bit, to_send}
use frame_oldbackend_public.Movement.Json.{Movement, movement_to_json}
use frame_oldbackend_public.Avatar.Packets.{
  Buffer, array_buffer_to_uuid, packet_size, unpacked, unpack, packed_binary_to_map, view,
  hand_over, update_peer_movement,
}
use frame_oldbackend_public.Avatar.Packets.Joined.{joined, AreWhole, unpack_one-joined}
use mathlib.Core.List.{append-nil, append_assoc}

module _ (fl : Floats) where
  -- The calls are those for the entries, in their order.
  abbrev pub AreDelivered : List (Buffer × Buffer) → Map (List (Movement fl.Float)) → Type 0
  AreDelivered [] [] = Unit
  AreDelivered [] (call ∷ calls) = ⊥
  AreDelivered (entry ∷ entries) [] = ⊥
  AreDelivered ((uuid, packet) ∷ entries) ((id, movement) ∷ calls) =
      (array_buffer_to_uuid uuid ≡ some id)
      × (movement_to_json fl (view packet) ≡ some movement)
      × AreDelivered entries calls

  packets : List (Buffer × Buffer) → Map (List (Movement fl.Float)) → Map Buffer
  packets [] calls = []
  packets (entry ∷ entries) [] = []
  packets ((uuid, packet) ∷ entries) ((id, movement) ∷ calls) = (id, packet) ∷ packets entries calls

  hand_over-packets :
      (entries : List (Buffer × Buffer)) (calls : Map (List (Movement fl.Float)))
      → AreDelivered entries calls
      → hand_over fl (packets entries calls) ≡ calls
  unfolding hand_over packets
  hand_over-packets [] [] h = refl
  hand_over-packets [] (call ∷ calls) h = elim h [ ]
  hand_over-packets (entry ∷ entries) [] h = elim h [ ]
  hand_over-packets ((uuid, packet) ∷ entries) ((id, movement) ∷ calls) h =
      rw (h.1, hand_over, hand_over-packets entries calls h.2) refl

  -- None of the keys is in the map.
  abbrev AreFresh : Map Buffer → Map (List (Movement fl.Float)) → Type 0
  AreFresh m [] = Unit
  AreFresh m ((id, movement) ∷ calls) = (lookup id m ≡ none) × AreFresh m calls

insert-fresh :
    (id : Guid) (packet : Buffer) (m : Map Buffer)
    → lookup id m ≡ none
    → insert id packet m ≡ m ++ ((id, packet) ∷ [])
unfolding insert lookup
insert-fresh id packet [] h = refl
insert-fresh id packet ((k, v) ∷ m) h = ground (arith, insert-fresh id packet m)

lookup-append :
    (k id : Guid) (packet : Buffer) (m : Map Buffer)
    → lookup k m ≡ none
    → (id == k) ≡ false
    → lookup k (m ++ ((id, packet) ∷ [])) ≡ none
unfolding lookup
lookup-append k id packet [] h e = ground arith
lookup-append k id packet ((j, v) ∷ m) h e = ground (arith, lookup-append k id packet m)

module _ (fl : Floats) where
  fresh_after :
      (id : Guid) (packet : Buffer) (m : Map Buffer) (calls : Map (List (Movement fl.Float)))
      → lookup id calls ≡ none
      → AreFresh fl m calls
      → AreFresh fl (m ++ ((id, packet) ∷ [])) calls
  unfolding lookup
  fresh_after id packet m [] e fresh = tt
  fresh_after id packet m ((k, movement) ∷ calls) e fresh = (
    lookup-append k id packet m fresh.0 (ground (arith, eq_iff id k, eq_iff k id)),
    fresh_after id packet m calls (ground arith) fresh.1,
  )

  unpack-delivered :
      (fuel : ℕ) (entries : List (Buffer × Buffer)) (calls : Map (List (Movement fl.Float)))
      (m : Map Buffer)
      → AreWhole entries
      → AreDelivered fl entries calls
      → IsDistinct calls
      → AreFresh fl m calls
      → length (joined entries) ≤ fuel
      → unpack fuel (joined entries) m ≡ unpacked (m ++ packets fl entries calls)
  unfolding unpack packets
  unpack-delivered fuel [] [] m whole d distinct fresh h = rw (append-nil m) refl
  unpack-delivered fuel [] (call ∷ calls) m whole d distinct fresh h = elim d [ ]
  unpack-delivered fuel (entry ∷ entries) [] m whole d distinct fresh h = elim d [ ]
  unpack-delivered fuel (([], packet) ∷ entries) (call ∷ calls) m whole d distinct fresh h =
      absurd (omega arith)
  unpack-delivered zero ((b ∷ bs, packet) ∷ entries) (call ∷ calls) m whole d distinct fresh h =
      absurd (omega arith)
  unpack-delivered (suc fuel) ((b ∷ bs, packet) ∷ entries) ((id, movement) ∷ calls) m whole d
        distinct fresh h =
      let short : length (joined entries) ≤ fuel = omega (
        arith,
        length-append bs (packet ++ joined entries),
        length-append packet (joined entries),
      ) in
      let one =
        unpack_one-joined (unpack fuel) (b ∷ bs) packet (joined entries) id m whole.0 whole.1 d.0 in
      let rest =
        unpack-delivered fuel entries calls (m ++ ((id, packet) ∷ [])) whole.2 d.2 distinct.1
          (fresh_after id packet m calls distinct.0 fresh.1) short in
      one
      ∙ ap (λ n. unpack fuel (joined entries) n) (insert-fresh id packet m fresh.0)
      ∙ rest
      ∙ ap unpacked (append_assoc m ((id, packet) ∷ []) (packets fl entries calls))

  fresh_start : (calls : Map (List (Movement fl.Float))) → AreFresh fl [] calls
  unfolding lookup
  fresh_start [] = tt
  fresh_start (call ∷ calls) = (refl, fresh_start calls)

  -- A server joins whole packets of different peers, each of which can be read: the handler is
  -- called once for each peer, in the order of the packets, with the movement that is read from its
  -- packet.
  pub update_peer_movement-joined :
      (entries : List (Buffer × Buffer)) (calls : Map (List (Movement fl.Float)))
      → AreWhole entries
      → AreDelivered fl entries calls
      → IsDistinct calls
      → update_peer_movement fl true (joined entries) ≡ calls
  unfolding update_peer_movement packed_binary_to_map
  update_peer_movement-joined entries calls whole d distinct =
      let taken =
        unpack-delivered (length (joined entries)) entries calls [] whole d distinct
          (fresh_start calls) (omega arith) in
      rw (update_peer_movement, packed_binary_to_map, taken) (hand_over-packets fl entries calls d)

-- The first bytes of a packet, as they are sent.
abbrev pub bytes_from : ℕ → ℕ → Packet → Buffer
bytes_from zero i packet = []
bytes_from (suc n) i packet = packet i ∷ bytes_from n (suc i) packet

abbrev pub sent_bytes : Sent → Buffer
sent_bytes (n, packet) = bytes_from n 0 packet

length-bytes_from : (n i : ℕ) (packet : Packet) → length (bytes_from n i packet) ≡ n
length-bytes_from zero i packet = refl
length-bytes_from (suc n) i packet = omega (arith, length-bytes_from n (suc i) packet)

-- The two sizes that are sent, by what the tests of the timer's callback say.
choice :
    (base full_bit full small : Bool) (packet : Packet) (s : Sent)
    → (if base && full_bit || full
        then (78, packet) ∷ []
        else if base && small
        then (36, packet) ∷ []
        else [])
      ≡ s ∷ []
    → ((s ≡ (78, packet)) × ((full ≡ true) ⊎ (full_bit ≡ true)))
      ⊎ ((s ≡ (36, packet)) × (full ≡ false) × (full_bit ≡ false))
choice base full_bit true small packet s e = inl (ground arith, inl refl)
choice true true false small packet s e = inl (ground arith, inr refl)
choice true false false small packet s e = inr (ground arith, refl, refl)
choice false full_bit false small packet s e = absurd (ground arith)

full_size : (bit : Bool) → ◌≡◌ {A = ℕ} 78 (if bit then 78 else 36) → bit ≡ true
full_size true e = refl
full_size false e = absurd (omega arith)

full_bit :
    (full bit : Bool) → (full ≡ true) ⊎ (bit ≡ true) → (full ≡ false) ⊎ (bit ≡ true) → bit ≡ true
full_bit full bit (inr e) w = e
full_bit full bit (inl e) (inr f) = f
full_bit full bit (inl e) (inl f) = cc

-- The packet that the timer sends has the size that the receiver takes for it exactly if full packets
-- are not asked for, or its header has the fullPacket bit: a full packet without the bit is taken for
-- a short one.
pub to_send-packet_size :
    (full : Bool) (packet : Packet) (s : Sent)
    → to_send full packet ≡ s ∷ []
    → (length (sent_bytes s) ≡ packet_size (sent_bytes s))
      ↔ ((full ≡ false) ⊎ (has_bit (get_16 0 packet) full_packet ≡ true))
unfolding to_send packet_size
to_send-packet_size full packet s e =
    let header = get_16 0 packet in
    let small = ltb header 15 || leb 32768 header in
    elim (choice (has_bit header 1) (has_bit header full_packet) full small packet s e) [
      | inl (same, why) ↦ rw same (
        λ size. inr (full_size (has_bit header full_packet) size),
        λ w. rw (full_bit full (has_bit header full_packet) why w) refl,
      )
      | inr (same, short, bit) ↦ rw same (λ size. inl short, λ w. rw bit refl)
    ]
