-- ===== src/Store.antt =====
-- models/models.py and services/: the tables that one request reads and writes, and the checks whose
-- computation (geometry, radio propagation, hashing) is not modelled.
use sas_core.Prelude.{ℕ, String, Bool, Option, List}
use sas_core.Prelude.Int.{ℤ}
use sas_core.Number.{Number}
use sas_core.Json.{Fields}
use sas_core.Records.{Cbsd, Grant, Stamp}

abbrev pub Location : Type 0
Location = Number × Number

-- A half-open range of frequencies, in Hz.
abbrev pub Range : Type 0
Range = ℕ × ℕ

-- A PAL as `load_pal_records` returns it.
pub record Pal : Type 0 where
  pub pal_id : Option String
  pub user_id : Option String
  pub frequency : Option Range
  pub license_expiration : Option ℕ

-- PalRecord; `record_expiration` is `license.licenseExpiration` of its JSON column. Both are parsed.
pub record PalRow : Type 0 where
  pub pal_id : String
  pub license_status : String
  pub license_expiration : Option ℕ
  pub record_expiration : Option ℕ

-- An injected zone; a geometry is its text.
pub record Zone : Type 0 where
  pub usage : Option String
  pub has_ppa_info : Bool
  pub cbsd_reference_ids : List String
  pub pal_ids : List String
  pub geometry : String

pub record Wisp : Type 0 where
  pub frequency : Option Range
  pub geometry : String

pub record Fss : Type 0 where
  pub site : Option (Location × Range)

-- A CBSD record of a peer's activity dump; for each of its grants, whether it is marked terminated.
pub record PeerCbsd : Type 0 where
  pub id : String
  pub grants_terminated : List Bool

pub record Store : Type 0 where
  pub cbsds : List Cbsd
  pub grants : List Grant
  pub pals : List Pal
  pub pal_rows : List PalRow
  pub zones : List Zone
  pub wisps : List Wisp
  pub fsses : List Fss
  pub fcc_max_eirps : List (String × ℤ)
  pub user_ids : List String
  -- fccId, serial number and parsed `data_json`
  pub conditionals : List (String × String × Fields)
  -- cpiId and public key
  pub cpi_users : List (String × String)
  pub blacklisted_fcc_ids : List String
  pub blacklisted_serials : List (String × String)
  pub admin_flags : List String
  pub peer_cbsds : List PeerCbsd
  pub sync : Stamp

-- services/dpa_neighborhood.py: where a CBSD stands; INDETERMINATE if an active DPA has no usable data.
pub data DpaNeighborhoodStatus : Type 0 where
  inside : DpaNeighborhoodStatus
  outside : DpaNeighborhoodStatus
  indeterminate : DpaNeighborhoodStatus

-- What a request asks of code that is not modelled. An Option is `none` where the code raises.
pub record Checks : Type 0 where
  -- services/fad_service.py: the reference id, with its SHA-1
  pub fad_cbsd_id : String → String → String
  -- services/geometry.py
  pub point_in_geojson : Location → String → Bool
  pub within_fss_distance : Location → Location → Bool
  -- services/exclusion_zone_service.py
  pub exclusion_ranges : Store → Location → Option (List Range)
  pub hits_exclusion_zone : Store → Location → Range → Option Bool
  -- services/gwpz_protection.py, quiet_zone_service.py, federal_db_service.py, dpa_protection.py
  pub blocked_by_gwpz : Store → Location → Range → Option Bool
  pub blocked_by_quiet_zone : Store → Location → Option String → Range → Bool
  pub blocked_by_fss_gwbl : Store → Location → Range → Bool
  pub violates_dpa : Store → Cbsd → Range → ℤ → Bool
  -- services/border_protection.py, services/iap/admission.py
  pub violates_border_pfd : Cbsd → ℤ → Range → Bool
  pub violates_iap : Store → Cbsd → Range → ℤ → Bool
  -- services/heartbeat_service.py and services/federal_db_service.py
  pub overlaps_active_dpa : Store → Grant → Bool
  pub federal_code : Store → Cbsd → Grant → Option ℕ
  -- services/dpa_neighborhood.py
  pub dpa_neighborhood : Store → Cbsd → DpaNeighborhoodStatus
