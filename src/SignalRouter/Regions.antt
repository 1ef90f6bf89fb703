-- ===== src/SignalRouter/Regions.antt =====
-- frame/libs/signalRouter.ts, `resolveRegion`: the AWS region that serves a client, from the
-- CloudFront location of the client and the regions where an egress server is registered.
use frame_oldbackend_public.Prelude.{String, Option, none, some, List, [], ◌∷◌, if◌then◌else◌}
use frame_oldbackend_public.Prelude.Maps.{Map, lookup, includes}
use frame_oldbackend_public.Types.{Guid}

-- `region.substring(0, 3)`, by characters: the codes are ASCII.
unfoldable pub substring_3 : String → String
substring_3 (String.◌∷◌ a (String.◌∷◌ b (String.◌∷◌ c _))) =
    String.◌∷◌ a (String.◌∷◌ b (String.◌∷◌ c String.[]))
substring_3 s = s

-- The codes that are distributed to us-east-1 (Virginia).
abbrev pub us_east_1_codes : List String
us_east_1_codes =
    "EWR" ∷ "JFK" ∷ "PHL" ∷ "BOS" ∷ "IAD" ∷ "ATL" ∷ "MIA" ∷ "JAX" ∷ "ORD" ∷ "DFW" ∷ "IAH" ∷ "MSP"
    ∷ "SLC" ∷ "DEN" ∷ "PHX" ∷ "LAX" ∷ "SEA" ∷ "HIO" ∷ "SFO" ∷ "YUL" ∷ "YTO" ∷ "YVR" ∷ "MCI" ∷ "QRO"
    ∷ "IND" ∷ []

-- The codes that are distributed to sa-east-1 (São Paulo).
abbrev sa_east_1_codes : List String
sa_east_1_codes = "EZE" ∷ "FOR" ∷ "GIG" ∷ "GRU" ∷ "SCL" ∷ "BOG" ∷ []

-- The codes that are distributed to ap-south-1 (Mumbai).
abbrev ap_south_1_codes : List String
ap_south_1_codes =
    "BLR" ∷ "MAA" ∷ "HYD" ∷ "CCU" ∷ "DEL" ∷ "BOM" ∷ "DXB" ∷ "FJR" ∷ "BAH" ∷ "NBO" ∷ "CPT" ∷ "JNB"
    ∷ "MCT" ∷ []

-- The codes that are distributed to eu-central-1 (Frankfurt).
abbrev eu_central_1_codes : List String
eu_central_1_codes =
    "ATH" ∷ "TXL" ∷ "BRU" ∷ "OTP" ∷ "BUD" ∷ "CPH" ∷ "DUB" ∷ "DUS" ∷ "FRA" ∷ "HAM" ∷ "MUC" ∷ "WAW"
    ∷ "HEL" ∷ "LIS" ∷ "LHR" ∷ "MAN" ∷ "MAD" ∷ "MRS" ∷ "MXP" ∷ "OSL" ∷ "PMO" ∷ "FCO" ∷ "CDG" ∷ "PRG"
    ∷ "SOF" ∷ "ARN" ∷ "TLV" ∷ "VIE" ∷ "ZAG" ∷ "ZRH" ∷ "AMS" ∷ []

-- The codes that are distributed to ap-northeast-1 (Tokyo).
abbrev ap_northeast_1_codes : List String
ap_northeast_1_codes = "KIX" ∷ "NRT" ∷ "ICN" ∷ []

-- The codes that are distributed to ap-east-1 (Hong Kong).
abbrev ap_east_1_codes : List String
ap_east_1_codes = "BJS" ∷ "HKG" ∷ "SHA" ∷ "SZX" ∷ "TPE" ∷ "ZHY" ∷ []

-- The codes that are distributed to ap-southeast-1 (Singapore).
abbrev ap_southeast_1_codes : List String
ap_southeast_1_codes = "CGK" ∷ "KUL" ∷ "MNL" ∷ "SIN" ∷ "BKK" ∷ []

-- The codes that are distributed to ap-southeast-2 (Sydney).
abbrev ap_southeast_2_codes : List String
ap_southeast_2_codes = "SYD" ∷ "MEL" ∷ "PER" ∷ "AKL" ∷ []

-- The body of a case that is served by `target`: us-east-1 stands in where no egress server is
-- registered there.
unfoldable pub region_or_us_east : Map (List Guid) → String → String
unfolding lookup
region_or_us_east egress_regions target = elim (lookup target egress_regions) [
  | none ↦ "us-east-1"
  | some _ ↦ target
]

-- The default case.
unfoldable pub us_east_or_local : Map (List Guid) → String
unfolding lookup
us_east_or_local egress_regions = elim (lookup "us-east-1" egress_regions) [
  | none ↦ "local"
  | some _ ↦ "us-east-1"
]

-- The cases that test the registered egress regions, with their codes, in the order of the switch.
abbrev pub served_regions : List (String × List String)
served_regions =
    ("sa-east-1", sa_east_1_codes)
    ∷ ("ap-south-1", ap_south_1_codes)
    ∷ ("eu-central-1", eu_central_1_codes)
    ∷ ("ap-northeast-1", ap_northeast_1_codes)
    ∷ ("ap-east-1", ap_east_1_codes)
    ∷ ("ap-southeast-1", ap_southeast_1_codes)
    ∷ ("ap-southeast-2", ap_southeast_2_codes)
    ∷ []

-- The first of the regions that serves the code.
unfoldable pub serving_region : String → List (String × List String) → Option String
unfolding includes
serving_region code [] = none
serving_region code ((target, codes) ∷ rest) =
    if includes code codes then some target else serving_region code rest

-- `resolveRegion`
unfoldable pub resolve_region : Map (List Guid) → String → String
unfolding substring_3 includes serving_region region_or_us_east us_east_or_local
resolve_region egress_regions region =
    let code = substring_3 region in
    if includes code us_east_1_codes
    then "us-east-1"
    else elim (serving_region code served_regions) [
      | some target ↦ region_or_us_east egress_regions target
      | none ↦ us_east_or_local egress_regions
    ]
