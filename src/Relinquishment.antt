-- ===== src/Relinquishment.antt =====
-- services/relinquishment_service.py: the holder of a grant gives it back.
pub mod Final
use sas_core.Prelude.{
  ℕ, String, Bool, true, false, Option, none, some, List, [], ◌∷◌, if◌then◌else◌,
}
use sas_core.Codes.{success, missing_param, invalid_param}
use sas_core.Records.{Cbsd, Grant}
use sas_core.Store.{Store}
use sas_core.Auth.{cbsd_certificate_mismatch, lock_cbsd_row, lock_grant_row}
use sas_core.Lifecycle.{GrantState, relinquish, Payload, TransitionOutcome, apply_grant_event}
use sas_core.Rows.{save_grant, present, run_batch}

pub record RelinquishmentRequest : Type 0 where
  pub cbsd_id : Option String
  pub grant_id : Option String

pub record Reply : Type 0 where
  pub response_code : ℕ
  pub cbsd_id : Option String
  pub grant_id : Option String

abbrev pub resp : ℕ → Option String → Option String → Reply
resp code cid gid = record { response_code = code; cbsd_id = cid; grant_id = gid }

abbrev pub payload_of : String → String → Payload
payload_of cid gid = ("cbsdId", cid) ∷ ("grantId", gid) ∷ []

unfoldable pub relinquish_reply : String → String → TransitionOutcome GrantState → Reply
relinquish_reply cid gid o =
    if o.is_ok then resp success (some cid) (some gid) else resp o.response_code (some cid) none

-- A terminated grant counts as unknown.
unfoldable pub relinquish_row :
    Store → String → String → Bool → TransitionOutcome GrantState × Grant → Reply × Store
unfolding relinquish_reply
relinquish_row db cid gid true outcome = (resp invalid_param (some cid) none, db)
relinquish_row db cid gid false outcome =
    (relinquish_reply cid gid outcome.0, save_grant db outcome.1)

unfoldable pub relinquish_grant : Store → String → String → ℕ → Grant → Reply × Store
relinquish_grant db cid gid now g =
    relinquish_row db cid gid g.terminated (apply_grant_event g relinquish (payload_of cid gid) now)

unfoldable pub relinquish_found : Store → String → String → ℕ → Option Grant → Reply × Store
relinquish_found db cid gid now none = (resp invalid_param (some cid) none, db)
relinquish_found db cid gid now (some g) = relinquish_grant db cid gid now g

unfoldable pub relinquish_locked :
    Store → Option String → String → String → ℕ → Option Cbsd → Reply × Store
relinquish_locked db hash cid gid now none = (resp invalid_param none none, db)
relinquish_locked db hash cid gid now (some c) =
    if cbsd_certificate_mismatch c hash
    then (resp invalid_param none none, db)
    else relinquish_found db cid gid now (lock_grant_row db.grants gid cid)

unfoldable pub relinquish_ids :
    Store → Option String → ℕ → Option String → Option String → Reply × Store
relinquish_ids db hash now (some cid) (some gid) =
    relinquish_locked db hash cid gid now (lock_cbsd_row db.cbsds cid)
relinquish_ids db hash now cid gid = (resp missing_param cid none, db)

-- One item of the request, under the locks of its CBSD and grant.
unfoldable pub relinquish_one : Option String → Store → ℕ → RelinquishmentRequest → Reply × Store
relinquish_one hash db now req =
    relinquish_ids db hash now (present req.cbsd_id) (present req.grant_id)

unfoldable pub process_relinquishment :
    Store → Option String → List (ℕ × RelinquishmentRequest) → List Reply × Store
process_relinquishment db hash reqs = run_batch (relinquish_one hash) db reqs
