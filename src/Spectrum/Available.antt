-- ===== src/Spectrum/Available.antt =====
-- services/spectrum_inquiry_service.py: `_build_available_channels`.
use mathlib.Core.List.{foldl}
use sas_core.Prelude.{
  ℕ, String, Bool, false, ◌&&◌, ◌||◌, not, Option, none, some, List, [], ◌∷◌, ◌++◌, ltb, leb, any,
  min, max, contains, nat_beq, if◌then◌else◌, ◌==◌, string_eq,
}
use sas_core.Records.{Cbsd}
use sas_core.Store.{Store, Checks, Range, Location, Pal, Zone, Wisp, Fss}
use sas_core.Spectrum.Ranges.{cbrs_low_hz, cbrs_high_hz, overlaps, subtract_range}
use sas_core.Spectrum.Split.{split_10mhz}

pub record Channel : Type 0 where
  pub low : ℕ
  pub high : ℕ
  pub channel_type : String
  pub rule_applied : String

abbrev pub fss_exclusion_low_hz : ℕ
fss_exclusion_low_hz = 3_650_000_000

abbrev pub rule_applied : String
rule_applied = "FCC_PART_96"

-- Segments requested within the CBRS band.
unfoldable pub clip_inquired : List Range → List Range
clip_inquired [] = []
clip_inquired ((low, high) ∷ rest) =
    let others = clip_inquired rest in
    if ltb (max low cbrs_low_hz) (min high cbrs_high_hz)
    then (max low cbrs_low_hz, min high cbrs_high_hz) ∷ others
    else others

unfoldable pub exclude_range : List Range → Range → List Range
exclude_range segments r = subtract_range segments r.0 r.1

unfoldable pub exclude_wisp : Checks → Location → List Range → Wisp → List Range
exclude_wisp env loc segments w = elim w.frequency [
  | none ↦ segments
  | some r ↦
      if env.point_in_geojson loc w.geometry then subtract_range segments r.0 r.1 else segments
]

unfoldable pub exclude_fss : Checks → Location → List Range → Fss → List Range
exclude_fss env loc segments s = elim s.site [
  | none ↦ segments
  | some (at, band) ↦
      if env.within_fss_distance loc at
      then subtract_range segments fss_exclusion_low_hz cbrs_high_hz
      else segments
]

-- The segments left for a CBSD at a known place; `none` where the exclusion data are unusable.
unfoldable pub located_segments : Checks → Store → Location → List Range → Option (List Range)
located_segments env db loc segments = elim (env.exclusion_ranges db loc) [
  | none ↦ none
  | some exs ↦ some (
      foldl (exclude_fss env loc)
        (foldl (exclude_wisp env loc) (foldl exclude_range segments exs) db.wisps) db.fsses)
]

-- An entry `palId` of the dictionary `pal_by_id`.
unfoldable pub is_pal : String → Pal → Bool
is_pal id p = elim p.pal_id [ none ↦ false | some x ↦ not (x == "") && x == id ]

-- `pal_by_id.get(pal_id)`: of two PALs with one id the later stands.
unfoldable pub pal_by_id : List Pal → String → Option Pal
unfolding is_pal
pal_by_id [] id = none
pal_by_id (p ∷ rest) id = elim (pal_by_id rest id) [
  | some q ↦ some q
  | none ↦ if is_pal id p then some p else none
]

unfoldable pub is_user : String → Pal → Bool
is_user user p = elim p.user_id [ none ↦ false | some x ↦ x == user ]

-- `pal_id in user_pal_ids`
unfoldable pub owns_pal : List Pal → String → String → Bool
unfolding is_pal is_user
owns_pal pals user id = any (λ p. is_pal id p && is_user user p) pals

pub record PalState : Type 0 where
  pub segments : List Range
  pub pal_channels : List Range

unfoldable pub protect_pal : Bool → Bool → Bool → PalState → Range → PalState
protect_pal in_cluster owned in_ppa st pf =
    if in_cluster && owned
    then record {
      segments = subtract_range st.segments pf.0 pf.1;
      pal_channels =
          st.pal_channels
          ++ (if any (λ (s : Range). overlaps s.0 s.1 pf.0 pf.1) st.segments then pf ∷ [] else []);
    }
    else if in_cluster || in_ppa
    then record st { segments = subtract_range st.segments pf.0 pf.1 }
    else st

unfoldable pub pal_step : Store → Cbsd → Bool → Bool → PalState → String → PalState
pal_step db c in_cluster in_ppa st id = elim (pal_by_id db.pals id) [
  | none ↦ st
  | some p ↦ elim p.frequency [
    | none ↦ st
    | some pf ↦ protect_pal in_cluster (owns_pal db.pals c.user_id id) in_ppa st pf
  ]
]

-- Not a PPA: neither its usage nor its keys say so.
unfoldable pub is_ppa : Zone → Bool
is_ppa z = elim z.usage [ none ↦ z.has_ppa_info | some u ↦ u == "PPA" || z.has_ppa_info ]

unfoldable pub in_zone : Checks → Option Location → Zone → Bool
in_zone env none z = false
in_zone env (some loc) z = env.point_in_geojson loc z.geometry

unfoldable pub zone_step : Checks → Store → Cbsd → PalState → Zone → PalState
unfolding in_zone
zone_step env db c st z =
    if is_ppa z
    then foldl
        (pal_step db c (contains c.cbsd_id z.cbsd_reference_ids)
          (in_zone env c.registration.location z))
        st z.pal_ids
    else st

unfoldable pub channels_of : String → List Range → List Channel
channels_of kind [] = []
channels_of kind (r ∷ rest) =
    record { low = r.0; high = r.1; channel_type = kind; rule_applied = rule_applied }
    ∷ channels_of kind rest

unfoldable pub split_segments : List Range → List Range
split_segments [] = []
split_segments ((low, high) ∷ rest) = split_10mhz low high ++ split_segments rest

-- The sort by `(lowFrequency, highFrequency)` is stable.
unfoldable pub not_after : Channel → Channel → Bool
not_after a b = ltb a.low b.low || (nat_beq a.low b.low && leb a.high b.high)

unfoldable pub insert_channel : Channel → List Channel → List Channel
insert_channel ch [] = ch ∷ []
insert_channel ch (x ∷ xs) = if not_after ch x then ch ∷ x ∷ xs else x ∷ insert_channel ch xs

unfoldable pub sort_channels : List Channel → List Channel
unfolding insert_channel not_after
sort_channels [] = []
sort_channels (x ∷ xs) = insert_channel x (sort_channels xs)

unfoldable pub offer : PalState → List Channel
offer st =
    sort_channels
      (channels_of "PAL" st.pal_channels ++ channels_of "GAA" (split_segments st.segments))

unfoldable pub after_exclusions : Checks → Store → Cbsd → List Range → Option (List Range)
after_exclusions env db c segments = elim c.registration.location [
  | none ↦ some segments
  | some loc ↦ located_segments env db loc segments
]

-- The offer of the segments that are left; none where they are withheld.
unfoldable pub offer_after : Checks → Store → Cbsd → Option (List Range) → List Channel
offer_after env db c none = []
offer_after env db c (some segments) =
    offer (foldl (zone_step env db c) (record { segments = segments; pal_channels = [] }) db.zones)

unfoldable pub build_available_channels : Checks → Store → Cbsd → List Range → List Channel
build_available_channels env db c inquired =
    offer_after env db c (after_exclusions env db c (clip_inquired inquired))
