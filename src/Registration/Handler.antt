-- ===== src/Registration/Handler.antt =====
-- services/registration_service.py: `process_registration`.
use Prim.Native.String.{◌++◌ as concat}
use sas_core.Prelude.{
  ℕ, String, Bool, ◌&&◌, not, Option, none, some, List, [], ◌∷◌, contains, nat_beq, if◌then◌else◌,
  string_eq,
}
use sas_core.Codes.{success, blacklisted, missing_param, invalid_param, pending}
use sas_core.Records.{Cbsd}
use sas_core.Store.{Store}
use sas_core.Auth.{is_cbsd_blacklisted, cbsd_certificate_mismatch, lock_cbsd_row, admin_flag_set}
use sas_core.Lifecycle.{
  CbsdState, unregistered, register, reregister, TransitionOutcome, Payload, resolve_cbsd_state,
  evaluate_cbsd_transition,
}
use sas_core.MeasReport.{flag_meas_reg, meas_without_grant}
use sas_core.Json.{Fields, get, text_of, object_or_empty}
use sas_core.Checked.{Checked, passed, refused, raised, ◌>>=◌, ◌>>◌, refuse_when, or_raise}
use sas_core.Registration.Params.{
  get_conditionals, merge_registration, lacks_required_fields, verify_request_cpi,
  has_pending_params,
}
use sas_core.Registration.Validate.{RegistrationChecks, validate_params}
use sas_core.Registration.Table.{list_of, update_cbsd, new_cbsd, save_cbsd, insert_cbsd, end_grants}

-- A request, and whether another worker inserts a row with its id first (`IntegrityError`).
pub record RegistrationRequest : Type 0 where
  pub body : Fields
  pub race_lost : Bool

pub record RegistrationReply : Type 0 where
  pub response_code : ℕ
  pub cbsd_id : Option String
  pub meas_report_config : List String

abbrev pub registration_refusal : ℕ → RegistrationReply
registration_refusal code = record { response_code = code; cbsd_id = none; meas_report_config = [] }

abbrev pub registered_reply : String → RegistrationReply
registered_reply cid = record {
  response_code = success;
  cbsd_id = some cid;
  meas_report_config = [];
}

unfoldable pub make_cbsd_id : Fields → String
make_cbsd_id request =
    concat (text_of "fccId" request) (concat "/" (text_of "cbsdSerialNumber" request))

-- The merged parameters of a request that may be registered.
unfoldable pub examine : RegistrationChecks → Store → ℕ → Fields → Checked Fields
examine env db now request = do
  refuse_when (lacks_required_fields request) missing_param
  refuse_when
      (is_cbsd_blacklisted db (text_of "fccId" request) (text_of "cbsdSerialNumber" request))
      blacklisted
  verified ← verify_request_cpi env.tools db request now
  merged ←
      merge_registration request
        (get_conditionals db (text_of "fccId" request) (text_of "cbsdSerialNumber" request))
        verified
  validate_params env db request merged
  incomplete ← has_pending_params merged
  refuse_when incomplete pending
  installation ← or_raise (object_or_empty (get "installationParam" merged))
  refuse_when (env.blocked_by_quiet_zone db installation merged) invalid_param
  passed merged

unfoldable pub registration_payload : Fields → Payload
registration_payload request =
    ("userId", text_of "userId" request)
    ∷ ("fccId", text_of "fccId" request)
    ∷ ("cbsdSerialNumber", text_of "cbsdSerialNumber" request)
    ∷ []

abbrev pub Answer : Type 0
Answer = RegistrationReply × Store

unfoldable pub register_again :
    Store
    → Option String
    → String
    → ℕ
    → Fields
    → Fields
    → Cbsd
    → TransitionOutcome CbsdState
    → Answer
register_again db hash cid now request merged c o =
    if not o.is_ok then (registration_refusal o.response_code, db) else (
      registered_reply cid,
      end_grants (save_cbsd db (update_cbsd c hash request merged)) cid now,
    )

unfoldable pub register_new :
    RegistrationChecks
    → Store
    → Option String
    → String
    → RegistrationRequest
    → Fields
    → TransitionOutcome CbsdState
    → Answer
register_new env db hash cid req merged o =
    if not o.is_ok
    then (registration_refusal o.response_code, db)
    else if req.race_lost
    then (registration_refusal invalid_param, db)
    else (
      registered_reply cid,
      insert_cbsd db (new_cbsd (env.next_pk db.cbsds) cid hash req.body merged),
    )

-- Under the lock of the id.
unfoldable pub register_locked :
    RegistrationChecks
    → Store
    → Option String
    → String
    → ℕ
    → RegistrationRequest
    → Fields
    → Option Cbsd
    → Answer
register_locked env db hash cid now req merged none =
    register_new env db hash cid req merged
      (evaluate_cbsd_transition register unregistered (registration_payload req.body))
register_locked env db hash cid now req merged (some c) =
    if cbsd_certificate_mismatch c hash
    then (registration_refusal invalid_param, db)
    else register_again db hash cid now req.body merged c (
        evaluate_cbsd_transition reregister (resolve_cbsd_state (some c))
          (registration_payload req.body))

-- No reply: an exception ends the batch.
unfoldable pub register_examined :
    RegistrationChecks
    → Store
    → Option String
    → ℕ
    → RegistrationRequest
    → Checked Fields
    → Option RegistrationReply × Store
register_examined env db hash now req raised = (none, db)
register_examined env db hash now req (refused code) = (some (registration_refusal code), db)
register_examined env db hash now req (passed merged) =
    let cid = make_cbsd_id req.body in
    let done = register_locked env db hash cid now req merged (lock_cbsd_row db.cbsds cid) in
    (some done.0, done.1)

unfoldable pub register_one :
    RegistrationChecks
    → Option String
    → Store
    → ℕ
    → RegistrationRequest
    → Option RegistrationReply × Store
register_one env hash db now req =
    register_examined env db hash now req (examine env db now req.body)

-- The answers of the later requests, after one was answered.
abbrev pub after_reply :
    Option RegistrationReply
    → Option (List RegistrationReply) × Store
    → Store
    → Option (List RegistrationReply) × Store
after_reply none later db = (none, db)
after_reply (some r) (none, db') db = (none, db')
after_reply (some r) (some rs, db') db = (some (r ∷ rs), db')

-- The loop over the batch; every request is committed before the next.
unfoldable pub register_all :
    RegistrationChecks
    → Option String
    → Store
    → List (ℕ × RegistrationRequest)
    → Option (List RegistrationReply) × Store
register_all env hash db [] = (some [], db)
register_all env hash db ((now, req) ∷ rest) =
    let first = register_one env hash db now req in
    let later = register_all env hash first.1 rest in after_reply first.0 later first.1

-- MES: a success of a device that can measure without a grant.
unfoldable pub with_meas_config : Bool → RegistrationRequest → RegistrationReply → RegistrationReply
with_meas_config flag req r =
    if flag
      && nat_beq r.response_code success
      && contains meas_without_grant (list_of (get "measCapability" req.body))
    then record r { meas_report_config = meas_without_grant ∷ [] }
    else r

unfoldable pub zip_config :
    Bool → List (ℕ × RegistrationRequest) → List RegistrationReply → List RegistrationReply
zip_config flag ((now, req) ∷ reqs) (r ∷ rs) = with_meas_config flag req r ∷ zip_config flag reqs rs
zip_config flag _ rs = rs

unfoldable pub configure :
    List (ℕ × RegistrationRequest)
    → Option (List RegistrationReply) × Store
    → Option (List RegistrationReply) × Store
configure reqs (none, db) = (none, db)
configure reqs (some rs, db) = (some (zip_config (admin_flag_set db flag_meas_reg) reqs rs), db)

unfoldable pub process_registration :
    RegistrationChecks
    → Store
    → Option String
    → List (ℕ × RegistrationRequest)
    → Option (List RegistrationReply) × Store
process_registration env db hash reqs = configure reqs (register_all env hash db reqs)
