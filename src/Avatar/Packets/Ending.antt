-- ===== src/Avatar/Packets/Ending.antt =====
-- frame/webapp/core/avatar.ts, `packedBinaryToMap`: the loop ends on every buffer.
use frame_oldbackend_public.Prelude.{
  ℕ, zero, suc, ◌≤◌, ◌≡◌, ◌≢◌, refl, [], ◌∷◌, arith, if◌then◌else◌, Option-cases, Bool-cases, ◌⊎◌,
  inl, inr, ltb,
}
use frame_oldbackend_public.Prelude.Maps.{Map}
use frame_oldbackend_public.Prelude.Lists.{length, drop, length-drop}
use frame_oldbackend_public.Avatar.Packets.{
  Buffer, slice, uuid_size, array_buffer_to_uuid, packet_size, Unpacked, unpacked, thrown,
  out_of_fuel, unpack_one, unpack, packed_binary_to_map,
}

-- A round hands on fewer bytes than it is given.
unpack_one-ne-out_of_fuel :
    (again : Buffer → Map Buffer → Unpacked) (b : ℕ) (bs : Buffer) (m : Map Buffer)
    → ((rest : Buffer) (n : Map Buffer) → length rest ≤ length bs → again rest n ≢ out_of_fuel)
    → unpack_one again (b ∷ bs) m ≢ out_of_fuel
unfolding unpack_one
unpack_one-ne-out_of_fuel again b bs m keep =
    elim (Option-cases (array_buffer_to_uuid (slice 0 uuid_size (b ∷ bs)))) [
      | inl e ↦ rw (e, unpack_one) (λ p. cc)
      | inr (uuid, e) ↦
          rw (e, unpack_one)
            (elim (Bool-cases (ltb (length (drop 16 (b ∷ bs))) 2)) [
              | inl short ↦ rw (short, if◌then◌else◌) (λ p. cc)
              | inr long ↦
                  rw (long, if◌then◌else◌)
                    (keep _ _ (
                      omega (
                        arith,
                        length-drop (packet_size (drop 16 (b ∷ bs))) (drop 16 (b ∷ bs)),
                        length-drop 16 (b ∷ bs),
                      )))
            ])
    ]

unpack-ne-out_of_fuel :
    (fuel : ℕ) (rest : Buffer) (m : Map Buffer)
    → length rest ≤ fuel
    → unpack fuel rest m ≢ out_of_fuel
unfolding unpack
unpack-ne-out_of_fuel fuel [] m h = λ e. cc
unpack-ne-out_of_fuel zero (b ∷ bs) m h = absurd (omega arith)
unpack-ne-out_of_fuel (suc fuel) (b ∷ bs) m h =
    unpack_one-ne-out_of_fuel (unpack fuel) b bs m
      (λ rest n short. unpack-ne-out_of_fuel fuel rest n (omega arith))

-- The loop that takes a buffer apart ends on every buffer, with a map or with an exception.
pub packed_binary_to_map-ends :
    (packed : Buffer)
    → ((m : Map Buffer) × (packed_binary_to_map packed ≡ unpacked m))
      ⊎ (packed_binary_to_map packed ≡ thrown)
unfolding packed_binary_to_map
packed_binary_to_map-ends packed =
    ends (unpack (length packed) packed []) refl
      (unpack-ne-out_of_fuel (length packed) packed [] (omega arith))
  where
    ends :
        (u : Unpacked)
        → unpack (length packed) packed [] ≡ u
        → unpack (length packed) packed [] ≢ out_of_fuel
        → ((m : Map Buffer) × (unpack (length packed) packed [] ≡ unpacked m))
          ⊎ (unpack (length packed) packed [] ≡ thrown)
    ends (unpacked m) e h = inl (m, e)
    ends thrown e h = inr e
    ends out_of_fuel e h = absurd (h e)
