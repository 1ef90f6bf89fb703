-- ===== src/PeerConnectionManager/Told/Sends.antt =====
-- frame/libs/peerConnectionManager.ts: a loop over the peers that sends one message to each peer
-- that passes a test.
use frame_oldbackend_public.Prelude.{
  Bool, true, ◌≡◌, refl, ◌↔◌, ◌⊎◌, inl, inr, some, none, List, [], ◌∷◌, ◌==◌, arith, eq_iff,
  if◌then◌else◌, Bool-cases,
}
use frame_oldbackend_public.Prelude.Maps.{Map, lookup, values}
use frame_oldbackend_public.Prelude.Entries.{IsDistinct}
use frame_oldbackend_public.Types.{Guid, Peer}

-- The message is one of the list.
abbrev pub IsSent : {A : Type 0} → A → List A → Type 0
IsSent e [] = ⊥
IsSent e (x ∷ xs) = (e ≡ x) ⊎ IsSent e xs

-- The message is the one for a peer of the map that passes the test.
abbrev pub IsTold : {A : Type 0} → (Peer → Bool) → (Peer → A) → Map Peer → A → Type 0
IsTold test message m e =
    (id : Guid) × (peer : Peer) × (lookup id m ≡ some peer)
    × (test peer ≡ true)
    × (e ≡ message peer)

-- A loop over the peers that sends one message to each peer that passes a test.
module _ {A : Type 0} (test : Peer → Bool) (message : Peer → A) (sends : List Peer → List A)
    (sends_none : sends [] ≡ [])
    (sends_step : (peer : Peer) (peers : List Peer)
      → sends (peer ∷ peers)
        ≡ (if test peer then message peer ∷ sends peers else sends peers)) where
  later :
      (m : Map Peer) (k : Guid) (p : Peer) (e : A)
      → lookup k m ≡ none
      → IsTold test message m e
      → IsTold test message ((k, p) ∷ m) e
  unfolding lookup
  later m k p e fresh (id, peer, found, passed, same) =
      (id, peer, ground (arith, eq_iff k id), passed, same)

  IsSent-IsTold :
      (m : Map Peer) (e : A) → IsDistinct m → IsSent e (sends (values m)) → IsTold test message m e
  unfolding lookup
  IsSent-IsTold [] e distinct h = elim (rw sends_none at h) [ ]
  IsSent-IsTold ((k, p) ∷ m) e distinct h = elim (Bool-cases (test p)) [
    | inl t ↦ elim (rw (sends_step p (values m), t) at h) [
      | inl same ↦ (k, p, ground (arith, eq_iff k k), t, same)
      | inr rest ↦ later m k p e distinct.0 (IsSent-IsTold m e distinct.1 rest)
    ]
    | inr t ↦
        later m k p e distinct.0
          (IsSent-IsTold m e distinct.1 (rw (sends_step p (values m), t) at h))
  ]

  IsTold-IsSent :
      (m : Map Peer) (id : Guid) (peer : Peer)
      → lookup id m ≡ some peer
      → test peer ≡ true
      → IsSent (message peer) (sends (values m))
  unfolding lookup
  IsTold-IsSent [] id peer found passed = ground arith
  IsTold-IsSent ((k, p) ∷ m) id peer found passed =
      rw (sends_step p (values m)) (elim (Bool-cases (k == id)) [
        | inl e ↦ let same : p ≡ peer = ground arith in rw (same, passed) (inl refl)
        | inr e ↦
            let rest = IsTold-IsSent m id peer (ground arith) passed in
            elim (Bool-cases (test p)) [ inl t ↦ rw t (inr rest) | inr t ↦ rw t rest ]
      ])

  pub sends-exact :
      (m : Map Peer) (e : A) → IsDistinct m → IsSent e (sends (values m)) ↔ IsTold test message m e
  sends-exact m e distinct = (
    IsSent-IsTold m e distinct,
    λ (id, peer, found, passed, same). rw same (IsTold-IsSent m id peer found passed),
  )
