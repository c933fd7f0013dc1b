-- ===== src/Iap/Points.antt =====
-- services/iap/models.py, services/iap/aggregate.py and the neighborhood of services/iap/engine.py.
use sas_core.Prelude.{
  ℕ, zero, suc, ◌+◌, ◌-◌, ◌*◌, ◌/◌, String, Bool, true, false, ◌&&◌, ◌||◌, not, Option, none, some,
  List, [], ◌∷◌, ltb, leb, if◌then◌else◌, ◌==◌, string_eq,
}
use sas_core.Prelude.Int.{ℤ}

pub data ProtectedEntityKind : Type 0 where
  esc : ProtectedEntityKind
  fss_cochannel : ProtectedEntityKind
  fss_blocking : ProtectedEntityKind
  ppa : ProtectedEntityKind
  gwpz : ProtectedEntityKind
  generic : ProtectedEntityKind

-- A protected point, without its source and the antenna that only the coupling reads. Places and heights are in
-- millionths, levels in thousandths of a decibel.
pub record ProtectionPoint : Type 0 where
  pub point_id : String
  pub latitude : ℤ
  pub longitude : ℤ
  pub low_hz : ℕ
  pub high_hz : ℕ
  pub threshold_dbm : ℤ
  pub entity_kind : ProtectedEntityKind
  pub pre_iap_margin_db : ℕ
  pub neighborhood_km : Option ℕ

-- Without the source SAS, which nothing here reads. The category is stripped and in upper case, and ""
-- where there is none.
pub record GrantRfInfo : Type 0 where
  pub grant_id : String
  pub cbsd_id : String
  pub latitude : ℤ
  pub longitude : ℤ
  pub height_m : ℤ
  pub height_is_agl : Bool
  pub indoor : Bool
  pub low_hz : ℕ
  pub high_hz : ℕ
  pub max_eirp_dbm_mhz : ℤ
  pub is_managing_sas : Bool
  pub grant_pk : Option ℕ
  pub cbsd_category : String
  pub antenna_azimuth_deg : Option ℤ
  pub antenna_beamwidth_deg : Option ℤ
  pub antenna_gain_dbi : Option ℤ

pub record FrequencyChannel : Type 0 where
  pub low_hz : ℕ
  pub high_hz : ℕ

abbrev pub iapbw_hz : ℕ
iapbw_hz = 5000000

abbrev pub esc_cat_a_high_freq_hz : ℕ
esc_cat_a_high_freq_hz = 3660000000

-- The loop from `cursor`, whose test ends it before its `break` is reached; the fuel is at least the
-- number of channels below `high_hz`.
unfoldable pub channels_from : ℕ → ℕ → ℕ → ℕ → List FrequencyChannel
channels_from zero low_hz high_hz cursor = []
channels_from (suc fuel) low_hz high_hz cursor =
    let rest = channels_from fuel low_hz high_hz (cursor + iapbw_hz) in
    if not (ltb cursor high_hz)
    then []
    else if ltb low_hz (cursor + iapbw_hz)
    then record { low_hz = cursor; high_hz = cursor + iapbw_hz } ∷ rest
    else rest

-- `max(low_hz, origin) - origin` is the difference on natural numbers.
unfoldable pub overlapping_iap_channels : ℕ → ℕ → ℕ → List FrequencyChannel
overlapping_iap_channels origin low_hz high_hz =
    let start = origin + (low_hz - origin) / iapbw_hz * iapbw_hz in
    if leb high_hz low_hz
    then []
    else channels_from (suc ((high_hz - start) / iapbw_hz)) low_hz high_hz start

unfoldable pub is_esc : ProtectedEntityKind → Bool
is_esc esc = true
is_esc _ = false

unfoldable pub grant_overlaps_channel : GrantRfInfo → FrequencyChannel → ProtectedEntityKind → Bool
grant_overlaps_channel g c kind =
    ltb g.low_hz c.high_hz
    && ltb c.low_hz g.high_hz
    && not (
        is_esc kind
        && g.cbsd_category == "A"
        && (leb esc_cat_a_high_freq_hz g.low_hz || leb esc_cat_a_high_freq_hz c.low_hz))

-- In thousandths of a kilometre.
unfoldable pub esc_neighborhood_km_for_category : String → ℕ
esc_neighborhood_km_for_category category = if category == "A" then 40000 else 80000

unfoldable pub radius_of : ProtectionPoint → GrantRfInfo → Option ℕ
radius_of point g =
    if is_esc point.entity_kind
    then some (esc_neighborhood_km_for_category g.cbsd_category)
    else point.neighborhood_km

-- `distance` is `_haversine_km`, in thousandths of a kilometre.
unfoldable pub is_near :
    (GrantRfInfo → ProtectionPoint → ℕ) → ProtectionPoint → GrantRfInfo → Option ℕ → Bool
is_near distance point g none = true
is_near distance point g (some radius) = leb (distance g point) radius

unfoldable pub grants_in_neighborhood :
    (GrantRfInfo → ProtectionPoint → ℕ) → ProtectionPoint → List GrantRfInfo → List GrantRfInfo
grants_in_neighborhood distance point [] = []
grants_in_neighborhood distance point (g ∷ gs) =
    let rest = grants_in_neighborhood distance point gs in
    if ltb g.low_hz point.high_hz
      && ltb point.low_hz g.high_hz
      && is_near distance point g (radius_of point g)
    then g ∷ rest
    else rest
