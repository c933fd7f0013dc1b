-- ===== src/Grants/Channel.antt =====
-- services/grant_service.py: the channel of a requested range (`_ppa_pal_context`,
-- `_resolve_channel`) and the power that a CBSD may ask for.
use sas_core.Prelude.{
  ℕ, String, Bool, false, ◌&&◌, not, Option, none, some, List, [], ◌∷◌, ◌++◌, any, keep, leb,
  contains, if◌then◌else◌, ◌==◌, string_eq,
}
use sas_core.Prelude.Int.{ℤ, pos, ◌-ℤ◌, min_ℤ}
use sas_core.Number.{Number, finite, nan, infinite, neg_infinite}
use sas_core.Codes.{invalid_param, interference}
use sas_core.Records.{Cbsd}
use sas_core.Store.{Store, Checks, Pal, Zone, Range}
use sas_core.Spectrum.{overlaps, pal_by_id, is_ppa, in_zone, Result, ok, err}
use sas_core.Renewal.{or_text, upper_is}

-- 30.0 dBm and 47.0 dBm in 10 MHz, and the 10.0 dB from 10 MHz to 1 MHz
abbrev pub cat_a_max_eirp_10mhz : ℤ
cat_a_max_eirp_10mhz = pos 30000

abbrev pub cat_b_max_eirp_10mhz : ℤ
cat_b_max_eirp_10mhz = pos 47000

abbrev pub per_mhz : ℤ
per_mhz = pos 10000

unfoldable pub category_limit : Cbsd → ℤ
category_limit c =
    if upper_is (or_text c.registration.cbsd_category (or_text c.cbsd_category "A")) "A"
    then cat_a_max_eirp_10mhz
    else cat_b_max_eirp_10mhz

-- `min([..., limit, cap])`: NaN is not less than the limit.
unfoldable pub cap_by : Option Number → ℤ → Number
cap_by none limit = finite limit
cap_by (some (finite cap)) limit = finite (min_ℤ limit cap)
cap_by (some nan) limit = finite limit
cap_by (some infinite) limit = finite limit
cap_by (some neg_infinite) limit = neg_infinite

-- `x - 10.0`
unfoldable pub to_mhz : Number → Number
to_mhz (finite n) = finite (n -ℤ per_mhz)
to_mhz n = n

unfoldable pub max_allowed_eirp_mhz : Cbsd → ℤ → Number
unfolding category_limit cap_by to_mhz
max_allowed_eirp_mhz c fcc_max =
    to_mhz (cap_by c.registration.eirp_capability (min_ℤ (category_limit c) fcc_max))

-- `filter_by(fcc_id=...).first()`, or the limit of category B
unfoldable pub fcc_max_eirp : List (String × ℤ) → String → ℤ
fcc_max_eirp [] fcc = cat_b_max_eirp_10mhz
fcc_max_eirp ((id, cap) ∷ rest) fcc = if id == fcc then cap else fcc_max_eirp rest fcc

-- A PAL that a claimed PPA is linked to.
pub record PalContext : Type 0 where
  pub low : ℕ
  pub high : ℕ
  pub in_cluster : Bool
  pub in_ppa : Bool
  pub license_exp : Option ℕ
  pub user_id : Option String
  pub pal_id : String

unfoldable pub context_of : Bool → Bool → String → Pal → List PalContext
context_of in_cluster in_ppa id p = elim p.frequency [
  | none ↦ []
  | some r ↦
      record {
        low = r.0;
        high = r.1;
        in_cluster = in_cluster;
        in_ppa = in_ppa;
        license_exp = p.license_expiration;
        user_id = p.user_id;
        pal_id = id;
      }
      ∷ []
]

unfoldable pub pal_contexts : Store → Bool → Bool → List String → List PalContext
unfolding context_of
pal_contexts db in_cluster in_ppa [] = []
pal_contexts db in_cluster in_ppa (id ∷ rest) =
    (elim (pal_by_id db.pals id) [ none ↦ [] | some p ↦ context_of in_cluster in_ppa id p ])
    ++ pal_contexts db in_cluster in_ppa rest

unfoldable pub ppa_pal_context : Checks → Store → Cbsd → List Zone → List PalContext
ppa_pal_context env db c [] = []
ppa_pal_context env db c (z ∷ rest) =
    let others = ppa_pal_context env db c rest in
    if is_ppa z
    then pal_contexts db (contains c.cbsd_id z.cbsd_reference_ids)
        (in_zone env c.registration.location z) z.pal_ids
      ++ others
    else others

-- `channel_type`, `pal_license_exp` and `pal_id`
pub record ChannelChoice : Type 0 where
  pub channel_type : String
  pub license_exp : Option ℕ
  pub pal_id : Option String

abbrev pub gaa_choice : ChannelChoice
gaa_choice = record { channel_type = "GAA"; license_exp = none; pal_id = none }

unfoldable pub overlaps_context : Range → PalContext → Bool
unfolding overlaps
overlaps_context r ctx = overlaps r.0 r.1 ctx.low ctx.high

unfoldable pub inside_context : Range → PalContext → Bool
inside_context r ctx = leb ctx.low r.0 && leb r.1 ctx.high

unfoldable pub is_holder : String → PalContext → Bool
is_holder user ctx = ctx.in_cluster && (elim ctx.user_id [ none ↦ false | some u ↦ u == user ])

-- The first of the covering PALs that the CBSD may use.
unfoldable pub choose_pal : String → List PalContext → Result ChannelChoice
choose_pal user [] = err interference
choose_pal user (ctx ∷ rest) =
    if is_holder user ctx
    then ok
        (record { channel_type = "PAL"; license_exp = ctx.license_exp; pal_id = some ctx.pal_id })
    else choose_pal user rest

unfoldable pub choose_covering : String → List PalContext → Result ChannelChoice
choose_covering user [] = ok gaa_choice
choose_covering user (ctx ∷ rest) = choose_pal user (ctx ∷ rest)

unfoldable pub resolve_channel : List PalContext → Range → String → Result ChannelChoice
resolve_channel contexts r user =
    let overlapping = keep (overlaps_context r) contexts in
    if any (λ (ctx : PalContext). ctx.in_ppa && not ctx.in_cluster) overlapping
    then err interference
    else if any (λ (ctx : PalContext). ctx.in_cluster && not (inside_context r ctx)) overlapping
    then err invalid_param
    else choose_covering user (keep (inside_context r) overlapping)
