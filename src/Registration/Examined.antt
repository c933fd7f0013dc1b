-- ===== src/Registration/Examined.antt =====
-- services/registration_service.py: the checks that the parameters of an accepted request have passed.
use sas_core.Prelude.{ℕ, false, ◌≡◌, Option, some, string_eq, ◌∙◌, ap, subst}
use sas_core.Codes.{missing_param, invalid_param, blacklisted, pending}
use sas_core.Store.{Store}
use sas_core.Auth.{is_cbsd_blacklisted}
use sas_core.Json.{Fields, get, text_of, object_or_empty}
use sas_core.Checked.{Checked, passed, or_raise, bind_passed, when_passed, or_raise_passed}
use sas_core.Registration.Params.{
  get_conditionals, merge_registration, lacks_required_fields, verify_request_cpi,
  has_pending_params,
}
use sas_core.Registration.Validate.{RegistrationChecks, validate_params}
use sas_core.Registration.Handler.{examine}

-- What `examine` has let through.
pub record IsExamined (env : RegistrationChecks) (db : Store) (now : ℕ) (request merged : Fields)
    : Type 0 where
  pub complete : lacks_required_fields request ≡ false
  pub allowed :
      is_cbsd_blacklisted db (text_of "fccId" request) (text_of "cbsdSerialNumber" request) ≡ false
  pub signed : Option Fields
  pub verified : verify_request_cpi env.tools db request now ≡ passed signed
  pub combined :
      merge_registration request
        (get_conditionals db (text_of "fccId" request) (text_of "cbsdSerialNumber" request))
        signed
      ≡ passed merged
  pub valid : validate_params env db request merged ≡ passed tt
  pub determined : has_pending_params merged ≡ passed false
  pub installation : Fields
  pub installed : object_or_empty (get "installationParam" merged) ≡ some installation
  pub quiet : env.blocked_by_quiet_zone db installation merged ≡ false

pub examine-IsExamined :
    (env : RegistrationChecks) (db : Store) (now : ℕ) (request merged : Fields)
    → examine env db now request ≡ passed merged
    → IsExamined env db now request merged
unfolding examine
examine-IsExamined env db now request merged h =
    let fcc = text_of "fccId" request in
    let serial = text_of "cbsdSerialNumber" request in
    let h1 = when_passed (lacks_required_fields request) missing_param _ h in
    let h2 = when_passed (is_cbsd_blacklisted db fcc serial) blacklisted _ h1.1 in
    let (signed, h3, r3) = bind_passed (verify_request_cpi env.tools db request now) _ h2.1 in
    let (m, h4, r4) =
      bind_passed (merge_registration request (get_conditionals db fcc serial) signed) _ r3 in
    let (u, h5, r5) = bind_passed (validate_params env db request m) _ r4 in
    let (p, h6, r6) = bind_passed (has_pending_params m) _ r5 in
    let h7 = when_passed p pending _ r6 in
    let (i, h8, r8) = bind_passed (or_raise (object_or_empty (get "installationParam" m))) _ h7.1 in
    let h9 = when_passed (env.blocked_by_quiet_zone db i m) invalid_param _ r8 in
    let same : m ≡ merged = passed-injective h9.1 in
    subst (IsExamined env db now request) same (record {
      complete = h1.0;
      allowed = h2.0;
      signed = signed;
      verified = h3;
      combined = h4;
      valid = h5;
      determined = h6 ∙ ap passed h7.0;
      installation = i;
      installed = or_raise_passed _ h8;
      quiet = h9.0;
    })
  where
    passed-injective : {a b : Fields} → ◌≡◌ {A = Checked Fields} (passed a) (passed b) → a ≡ b
    passed-injective h = cc
