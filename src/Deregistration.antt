-- ===== src/Deregistration.antt =====
-- services/deregistration_service.py: a CBSD leaves, and its grants with it.
pub mod Cascade
pub mod Gone
use sas_core.Prelude.{
  ℕ, String, not, Option, none, some, List, [], ◌∷◌, map, if◌then◌else◌, ◌==◌, string_eq,
}
use sas_core.Codes.{success, missing_param, invalid_param}
use sas_core.Records.{Cbsd, Grant}
use sas_core.Store.{Store}
use sas_core.Auth.{cbsd_certificate_mismatch, lock_cbsd_row}
use sas_core.Lifecycle.{
  CbsdState, deregister, terminate, resolve_cbsd_state, TransitionOutcome, evaluate_cbsd_transition,
  apply_grant_event,
}
use sas_core.Rows.{delete_cbsd, present, run_batch}

pub record DeregistrationReply : Type 0 where
  pub response_code : ℕ
  pub cbsd_id : Option String

abbrev pub answer : ℕ → Option String → DeregistrationReply
answer code cid = record { response_code = code; cbsd_id = cid }

-- A grant of the CBSD is terminated; the outcome is not looked at.
unfoldable pub terminate_grant : String → ℕ → Grant → Grant
terminate_grant cid now g =
    if g.cbsd_id == cid
    then (apply_grant_event g terminate (("cbsdId", cid) ∷ ("grantId", g.grant_id) ∷ []) now).1
    else g

unfoldable pub terminate_grants : Store → String → ℕ → Store
terminate_grants db cid now = record db { grants = map (terminate_grant cid now) db.grants }

unfoldable pub deregister_cbsd :
    Store → String → ℕ → Cbsd → TransitionOutcome CbsdState → DeregistrationReply × Store
deregister_cbsd db cid now c o =
    if not o.is_ok
    then (answer o.response_code none, db)
    else (answer success (some cid), delete_cbsd (terminate_grants db cid now) c)

unfoldable pub deregister_locked :
    Store → Option String → String → ℕ → Option Cbsd → DeregistrationReply × Store
deregister_locked db hash cid now none = (answer invalid_param none, db)
deregister_locked db hash cid now (some c) =
    if cbsd_certificate_mismatch c hash
    then (answer invalid_param none, db)
    else deregister_cbsd db cid now c
        (evaluate_cbsd_transition deregister (resolve_cbsd_state (some c)) (("cbsdId", cid) ∷ []))

unfoldable pub deregister_id :
    Store → Option String → ℕ → Option String → DeregistrationReply × Store
deregister_id db hash now none = (answer missing_param none, db)
deregister_id db hash now (some cid) =
    deregister_locked db hash cid now (lock_cbsd_row db.cbsds cid)

unfoldable pub deregister_one :
    Option String → Store → ℕ → Option String → DeregistrationReply × Store
deregister_one hash db now cbsd_id = deregister_id db hash now (present cbsd_id)

-- The requests are their `cbsdId`.
unfoldable pub process_deregistration :
    Store → Option String → List (ℕ × Option String) → List DeregistrationReply × Store
process_deregistration db hash reqs = run_batch (deregister_one hash) db reqs
