-- ===== src/Heartbeat/Handler.antt =====
-- services/heartbeat_service.py: `process_heartbeat`, from the fields of the request to the rows.
use sas_core.Prelude.{ℕ, String, Bool, false, Option, none, some, List, if◌then◌else◌, string_eq}
use sas_core.Codes.{missing_param, invalid_param}
use sas_core.Records.{Cbsd, Grant}
use sas_core.Store.{Store, Checks}
use sas_core.Auth.{cbsd_certificate_mismatch, lock_cbsd_row, lock_grant_row}
use sas_core.Rows.{save_grant, present, run_batch}
use sas_core.Heartbeat.Reply.{HeartbeatRequest, HeartbeatReply, deny}
use sas_core.Heartbeat.Guards.{heartbeat_grant}

-- The row is flushed as the guards leave it.
unfoldable pub commit_row : Store → HeartbeatReply × Grant → HeartbeatReply × Store
commit_row db r = (r.0, save_grant db r.1)

unfoldable pub with_rows :
    Checks
    → Store
    → HeartbeatRequest
    → String
    → String
    → String
    → ℕ
    → Option Cbsd
    → Option Grant
    → HeartbeatReply × Store
unfolding commit_row
with_rows env db req cid gid op now (some c) (some g) =
    commit_row db (heartbeat_grant env db c g req cid gid op now)
with_rows env db req cid gid op now _ _ = (deny invalid_param (some cid) none now, db)

-- `cbsd and cbsd_certificate_mismatch(...)`
unfoldable pub wrong_certificate : Option Cbsd → Option String → Bool
wrong_certificate none hash = false
wrong_certificate (some c) hash = cbsd_certificate_mismatch c hash

unfoldable pub heartbeat_locked :
    Checks
    → Store
    → Option String
    → HeartbeatRequest
    → String
    → String
    → String
    → ℕ
    → HeartbeatReply × Store
heartbeat_locked env db hash req cid gid op now =
    if wrong_certificate (lock_cbsd_row db.cbsds cid) hash
    then (deny invalid_param none none now, db)
    else with_rows env db req cid gid op now (lock_cbsd_row db.cbsds cid)
        (lock_grant_row db.grants gid cid)

-- `grantId` is echoed where it and `cbsdId` are given and name a row.
unfoldable pub echo_grant : Store → Option String → Option String → Option String
echo_grant db (some cid) (some gid) = elim (lock_grant_row db.grants gid cid) [
  | none ↦ none
  | some g ↦ some gid
]
echo_grant db _ _ = none

unfoldable pub heartbeat_ids :
    Checks
    → Store
    → Option String
    → HeartbeatRequest
    → ℕ
    → Option String
    → Option String
    → Option String
    → HeartbeatReply × Store
heartbeat_ids env db hash req now (some cid) (some gid) (some op) =
    heartbeat_locked env db hash req cid gid op now
heartbeat_ids env db hash req now cid gid op =
    (deny missing_param req.cbsd_id (echo_grant db cid gid) now, db)

unfoldable pub heartbeat_one :
    Checks → Option String → Store → ℕ → HeartbeatRequest → HeartbeatReply × Store
heartbeat_one env hash db now req =
    heartbeat_ids env db hash req now (present req.cbsd_id) (present req.grant_id)
      (present req.operation_state)

unfoldable pub process_heartbeat :
    Checks → Store → Option String → List (ℕ × HeartbeatRequest) → List HeartbeatReply × Store
process_heartbeat env db hash reqs = run_batch (heartbeat_one env hash) db reqs
