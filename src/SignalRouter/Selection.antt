-- ===== src/SignalRouter/Selection.antt =====
-- frame/libs/signalRouter.ts: which server `getIngress`, `getEgress` and `getMovement` choose.
use frame_oldbackend_public.Prelude.{
  ℕ, ◌≤◌, String, true, ◌≡◌, refl, ◌↔◌, ◌≢◌, ◌⊎◌, inl, inr, some, List, [], ◌∷◌, arith, eq_iff,
  Option-cases,
}
use native.Mathlib.Nat.{le_refl}
use frame_oldbackend_public.Prelude.Maps.{Map, lookup, includes}
use frame_oldbackend_public.Prelude.Entries.{Entries, IsDistinct, Entries-lookup}
use frame_oldbackend_public.Types.{Guid}
use frame_oldbackend_public.SignalRouter.Servers.{
  ServerPool, ok, throws, sort_by_load, insert_by_load, find_least, default_server, get_server,
}

-- What holds of every entry holds after the sort.
insert_by_load-Entries {κ} :
    (P : String → ℕ → Type κ) (e : String × ℕ) (m : Map ℕ)
    → P e.0 e.1
    → Entries P m
    → Entries P (insert_by_load e m)
unfolding insert_by_load
insert_by_load-Entries P e [] p h = (p, tt)
insert_by_load-Entries P e (x ∷ m) p h = ground (arith, insert_by_load-Entries P e m p h.1)

sort_by_load-Entries {κ} :
    (P : String → ℕ → Type κ) (m : Map ℕ) → Entries P m → Entries P (sort_by_load m)
unfolding sort_by_load
sort_by_load-Entries P [] h = tt
sort_by_load-Entries P (e ∷ m) h =
    insert_by_load-Entries P e (sort_by_load m) h.0 (sort_by_load-Entries P m h.1)

insert_by_load-Entries_back {κ} :
    (P : String → ℕ → Type κ) (e : String × ℕ) (m : Map ℕ)
    → Entries P (insert_by_load e m)
    → P e.0 e.1 × Entries P m
unfolding insert_by_load
insert_by_load-Entries_back P e [] h = h
insert_by_load-Entries_back P e (x ∷ m) h = ground (arith, insert_by_load-Entries_back P e m)

sort_by_load-Entries_back {κ} :
    (P : String → ℕ → Type κ) (m : Map ℕ) → Entries P (sort_by_load m) → Entries P m
unfolding sort_by_load
sort_by_load-Entries_back P [] h = tt
sort_by_load-Entries_back P (e ∷ m) h =
    let parts = insert_by_load-Entries_back P e (sort_by_load m) h in
    (parts.0, sort_by_load-Entries_back P m parts.1)

abbrev IsAtMost : ℕ → Map ℕ → Type 0
IsAtMost n = Entries (λ _ load. n ≤ load)

abbrev IsSorted : Map ℕ → Type 0
IsSorted [] = Unit
IsSorted ((id, load) ∷ m) = IsAtMost load m × IsSorted m

IsAtMost-mono : (a b : ℕ) (m : Map ℕ) → a ≤ b → IsAtMost b m → IsAtMost a m
IsAtMost-mono a b [] le h = tt
IsAtMost-mono a b (x ∷ m) le h = (omega arith, IsAtMost-mono a b m le h.1)

insert_by_load-IsSorted : (e : String × ℕ) (m : Map ℕ) → IsSorted m → IsSorted (insert_by_load e m)
unfolding insert_by_load
insert_by_load-IsSorted e [] h = (tt, tt)
insert_by_load-IsSorted e (x ∷ m) h = ground (
  arith,
  IsAtMost-mono e.1 x.1 m,
  insert_by_load-IsSorted e m h.1,
  insert_by_load-Entries (λ _ load. x.1 ≤ load) e m,
)

sort_by_load-IsSorted : (m : Map ℕ) → IsSorted (sort_by_load m)
unfolding sort_by_load
sort_by_load-IsSorted [] = tt
sort_by_load-IsSorted (e ∷ m) = insert_by_load-IsSorted e (sort_by_load m) (sort_by_load-IsSorted m)

insert_by_load-ne-nil : (e : String × ℕ) (m : Map ℕ) → insert_by_load e m ≢ []
unfolding insert_by_load
insert_by_load-ne-nil e [] = ground arith
insert_by_load-ne-nil e (x ∷ m) = ground arith

sort_by_load-eq-nil : (m : Map ℕ) → sort_by_load m ≡ [] → m ≡ []
unfolding sort_by_load
sort_by_load-eq-nil [] e = refl
sort_by_load-eq-nil (x ∷ m) e = absurd (insert_by_load-ne-nil x (sort_by_load m) e)

abbrev IsCandidate : List Guid → Guid → ℕ → Type 0
IsCandidate servers id load = (includes id servers ≡ true) × (id ≢ "")

-- The first entry of a sorted list of loads, with what is known of the loads that were sorted.
head_is_least :
    (loads sorted : Map ℕ) (servers : List Guid)
    → sort_by_load loads ≡ sorted
    → loads ≢ []
    → IsDistinct loads
    → Entries (IsCandidate servers) loads
    → (id : Guid) × (load : ℕ) × (find_least sorted servers ≡ ok (some id))
      × (id ≢ "")
      × (lookup id loads ≡ some load)
      × IsAtMost load loads
unfolding find_least
head_is_least loads [] servers e nonempty distinct candidates =
    absurd (nonempty (sort_by_load-eq-nil loads e))
head_is_least loads ((id, load) ∷ rest) servers e nonempty distinct candidates =
    let found = rw e at (
      sort_by_load-Entries (λ k l. lookup k loads ≡ some l) loads
        (Entries-lookup loads distinct)) in
    let good = rw e at (sort_by_load-Entries (IsCandidate servers) loads candidates) in
    let sorted = rw e at (sort_by_load-IsSorted loads) in
    (
      id,
      load,
      ground (arith, good.0),
      good.0.1,
      found.0,
      sort_by_load-Entries_back (λ _ l. load ≤ l) loads (rw e (le_refl load, sorted.0)),
    )

-- In a region that has servers and loads on record, where the loads are not empty, none stands
-- twice, and each is of a server of the region with an id that is not empty, the selection returns
-- a server, and no load of the region is less than the load of that server.
pub get_server-least :
    (p : ServerPool) (region : String) (loads : Map ℕ) (servers : List Guid)
    → lookup region p.load ≡ some loads
    → lookup region p.regions ≡ some servers
    → loads ≢ []
    → IsDistinct loads
    → Entries (IsCandidate servers) loads
    → (id : Guid) × (load : ℕ) × (get_server p region ≡ ok (some id))
      × (lookup id loads ≡ some load)
      × IsAtMost load loads
unfolding get_server
get_server-least p region loads servers el er nonempty distinct candidates =
    let (id, load, chosen, named, found, least) =
      head_is_least loads (sort_by_load loads) servers refl nonempty distinct candidates in
    (id, load, ground (arith, eq_iff id ""), found, least)

find_least-throws :
    (sorted : Map ℕ) (servers : List Guid)
    → (find_least sorted servers ≡ throws) ↔ ((sorted ≡ []) × (servers ≢ []))
unfolding find_least
find_least-throws [] [] = ground arith
find_least-throws [] (x ∷ servers) = ground arith
find_least-throws (x ∷ m) servers = ground arith

sort_by_load-nil : sort_by_load [] ≡ []
unfolding sort_by_load
sort_by_load-nil = refl

-- The selection throws where the region has a server on record and its loads are an empty object.
pub get_server-throws :
    (p : ServerPool) (region : String) (servers : List Guid)
    → lookup region p.load ≡ some []
    → lookup region p.regions ≡ some servers
    → servers ≢ []
    → get_server p region ≡ throws
unfolding get_server
get_server-throws p region servers loads listed some_server =
    ground (arith, find_least-throws [] servers, sort_by_load-nil)

-- Where the region has no server on record and its loads are an empty object, the default is taken.
pub get_server-default :
    (p : ServerPool) (region : String)
    → lookup region p.load ≡ some []
    → lookup region p.regions ≡ some []
    → get_server p region ≡ ok (default_server p.regions)
unfolding get_server find_least
get_server-default p region loads listed = ground (arith, sort_by_load-nil)

-- Some region has the server on record.
abbrev IsListed : Guid → Map (List Guid) → Type 0
IsListed id [] = ⊥
IsListed id ((_, servers) ∷ regions) = (includes id servers ≡ true) ⊎ IsListed id regions

lookup-IsListed :
    (id region : String) (servers : List Guid) (regions : Map (List Guid))
    → lookup region regions ≡ some servers
    → includes id servers ≡ true
    → IsListed id regions
unfolding lookup
lookup-IsListed id region servers [] e h = cc
lookup-IsListed id region servers ((name, ids) ∷ regions) e h =
    ground (arith, lookup-IsListed id region servers regions)

includes_head : (id : Guid) (ids : List Guid) → includes id (id ∷ ids) ≡ true
unfolding includes
includes_head id ids = ground (arith, eq_iff id id)

default_server-IsListed :
    (id : Guid) (regions : Map (List Guid)) → default_server regions ≡ some id → IsListed id regions
unfolding default_server
default_server-IsListed id [] e = cc
default_server-IsListed id ((name, []) ∷ regions) e = cc
default_server-IsListed id ((name, x ∷ xs) ∷ regions) e = inl (ground (arith, includes_head x xs))

find_least-includes :
    (id : Guid) (sorted : Map ℕ) (servers : List Guid)
    → find_least sorted servers ≡ ok (some id)
    → includes id servers ≡ true
unfolding find_least
find_least-includes id [] [] e = cc
find_least-includes id [] (x ∷ servers) e = cc
find_least-includes id ((x, _) ∷ m) servers e = ground arith

-- A server that the selection returns is on record in some region of its kind.
pub get_server-IsListed :
    (p : ServerPool) (region : String) (id : Guid)
    → get_server p region ≡ ok (some id)
    → IsListed id p.regions
unfolding get_server
get_server-IsListed p region id h = elim (Option-cases (lookup region p.load)) [
  | inl e ↦ default_server-IsListed id p.regions (ground arith)
  | inr (loads, e) ↦ elim (Option-cases (lookup region p.regions)) [
    | inl er ↦ default_server-IsListed id p.regions (ground arith)
    | inr (servers, er) ↦ ground (
      arith,
      default_server-IsListed id p.regions,
      find_least-includes id (sort_by_load loads) servers,
      lookup-IsListed id region servers p.regions er,
    )
  ]
]
