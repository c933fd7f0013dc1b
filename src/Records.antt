-- ===== src/Records.antt =====
-- models/models.py: the rows that the CBSD procedures read and write. A JSON column is held parsed.
-- A level in dBm is an integer, in thousandths of a decibel; a coordinate is a number that only the
-- geometry reads.
use sas_core.Prelude.{ℕ, String, Bool, Option, List}
use sas_core.Number.{Number}
use sas_core.Prelude.Int.{ℤ}

-- The keys of `registration_json` that the services read.
pub record Registration : Type 0 where
  pub cbsd_category : Option String
  pub meas_capability : List String
  pub has_installation : Bool
  pub location : Option (Number × Number)
  pub eirp_capability : Option Number

pub record Cbsd : Type 0 where
  pub pk : ℕ
  pub cbsd_id : String
  pub fcc_id : String
  pub user_id : String
  pub cbsd_serial_number : String
  pub cbsd_category : Option String
  pub certificate_hash : Option String
  pub lifecycle_state : String
  pub registration : Registration

-- `grant_json["auth_context"]`; the expiration is the parsed text.
pub record AuthContext : Type 0 where
  pub channel_type : Option String
  pub pal_id : Option String
  pub pal_license_expiration : Option ℕ

-- Generation counters: of the federal data now, and as stamped into `grant_json`.
pub record Stamp : Type 0 where
  pub fss : ℕ
  pub gwbl : ℕ
  pub exz : ℕ
  pub dpa : ℕ

pub record Grant : Type 0 where
  pub pk : ℕ
  pub grant_id : String
  pub cbsd_pk : ℕ
  pub cbsd_id : String
  pub channel_type : String
  pub low_frequency : ℕ
  pub high_frequency : ℕ
  pub max_eirp : Option ℤ
  pub grant_expire_time : ℕ
  pub heartbeat_interval : ℕ
  pub transmit_expire_time : Option ℕ
  pub authorized : Bool
  pub meas_report_requested : Bool
  pub terminated : Bool
  pub lifecycle_state : String
  pub stamp : Stamp
  pub auth_context : Option AuthContext
