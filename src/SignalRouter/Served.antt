-- ===== src/SignalRouter/Served.antt =====
-- frame/libs/signalRouter.ts: where `resolveRegion` sends a client.
use frame_oldbackend_public.Prelude.{
  String, ◌≡◌, refl, ◌≢◌, ◌⊎◌, inl, inr, none, List, arith, Option-cases, Bool-cases,
}
use frame_oldbackend_public.Prelude.Maps.{Map, lookup, includes}
use frame_oldbackend_public.Types.{Guid}
use frame_oldbackend_public.SignalRouter.Regions.{
  substring_3, us_east_1_codes, served_regions, serving_region, region_or_us_east, us_east_or_local,
  resolve_region,
}

-- Where a client is sent: to us-east-1; or to local, where us-east-1 has no egress server; or to a
-- region where an egress server has registered.
abbrev pub IsServed : Map (List Guid) → String → Type 0
IsServed regions target =
    (target ≡ "us-east-1")
    ⊎ ((target ≡ "local") × (lookup "us-east-1" regions ≡ none) ⊎ (lookup target regions ≢ none))

region_or_us_east-IsServed :
    (regions : Map (List Guid)) (target : String)
    → IsServed regions (region_or_us_east regions target)
unfolding region_or_us_east
region_or_us_east-IsServed regions target = elim (Option-cases (lookup target regions)) [
  | inl e ↦ inl (ground arith)
  | inr (ids, e) ↦ rw (e, region_or_us_east) (inr (inr (λ missing. ground arith)))
]

us_east_or_local-IsServed :
    (regions : Map (List Guid)) → IsServed regions (us_east_or_local regions)
unfolding us_east_or_local
us_east_or_local-IsServed regions = elim (Option-cases (lookup "us-east-1" regions)) [
  | inl e ↦ rw (e, us_east_or_local) (inr (inl (refl, refl)))
  | inr (ids, e) ↦ inl (ground arith)
]

-- Whatever the location of a client, the region that serves it is us-east-1, or local while
-- us-east-1 has no egress server, or one that has egress servers on record.
pub resolve_region-IsServed :
    (regions : Map (List Guid)) (region : String) → IsServed regions (resolve_region regions region)
unfolding resolve_region
resolve_region-IsServed regions region =
    elim (Bool-cases (includes (substring_3 region) us_east_1_codes)) [
      | inl e ↦ rw (e, resolve_region) (inl refl)
      | inr e ↦ elim (Option-cases (serving_region (substring_3 region) served_regions)) [
        | inl n ↦ rw (e, n, resolve_region) (us_east_or_local-IsServed regions)
        | inr (target, n) ↦ rw (e, n, resolve_region) (region_or_us_east-IsServed regions target)
      ]
    ]
