-- ===== src/Registration/Signed.antt =====
-- services/registration_service.py: signed installation data is trusted only after its verification.
use sas_core.Prelude.{ℕ, String, ◌≡◌, ◌∙◌, ap, Option, some, string_eq}
use sas_core.Store.{Store}
use sas_core.Json.{Json, obj, Fields, field, get, text_of, object_or_empty}
use sas_core.Checked.{Checked, passed, bind_passed}
use sas_core.Cpi.{CpiTools, structural_cpi_error, verify_cpi_signature}
use sas_core.Cpi.Bound.{IsBound, verify_cpi_signature-IsBound}
use sas_core.Registration.Params.{
  peek_key, verify_signed, verify_request_cpi, get_conditionals, merge_registration,
}
use sas_core.Registration.InstallerKey.{IsInstallerKey, peek-IsInstallerKey}
use sas_core.Registration.Validate.{RegistrationChecks}
use sas_core.Registration.Handler.{examine}
use sas_core.Registration.Examined.{examine-IsExamined}

-- A payload was verified under the key of the installer whom it names, and is what was merged.
pub record IsSigned (env : RegistrationChecks) (db : Store) (now : ℕ) (request sig merged : Fields)
    : Type 0 where
  pub pem : Option String
  pub payload : Fields
  pub looked_up : peek_key env.tools db sig ≡ passed pem
  pub key : String
  pub used_key : pem ≡ some key
  pub installer : IsInstallerKey env.tools db sig key
  pub bound :
      IsBound env.tools sig pem
        (text_of "fccId" request)
        (text_of "cbsdSerialNumber" request)
        now
        payload
  pub used :
      merge_registration request
        (get_conditionals db (text_of "fccId" request) (text_of "cbsdSerialNumber" request))
        (some payload)
      ≡ passed merged

signed_parts :
    (tools : CpiTools) (db : Store) (request : Fields) (now : ℕ) (k : String) (v : Json)
    (rest : Fields) (signed : Option Fields)
    → verify_signed tools db request now (field k v rest) ≡ passed signed
    → (pem : Option String) × (payload : Fields) × (peek_key tools db (field k v rest) ≡ passed pem)
      × IsBound tools
          (field k v rest)
          pem
          (text_of "fccId" request)
          (text_of "cbsdSerialNumber" request)
          now
          payload
      × (signed ≡ some payload)
unfolding verify_signed
signed_parts tools db request now k v rest signed h =
    let sig = field k v rest in
    let (u, h1, r1) = bind_passed (structural_cpi_error tools sig) _ h in
    let (pem, h2, r2) = bind_passed (peek_key tools db sig) _ r1 in
    let (payload, h3, r3) =
      bind_passed
        (verify_cpi_signature tools sig pem (text_of "fccId" request)
          (text_of "cbsdSerialNumber" request) now)
        _ r2 in
    (
      pem,
      payload,
      h2,
      verify_cpi_signature-IsBound tools sig pem (text_of "fccId" request)
          (text_of "cbsdSerialNumber" request) now payload h3,
      last payload signed r3,
    )
  where
    last :
        (p : Fields) (s : Option Fields)
        → ◌≡◌ {A = Checked (Option Fields)} (passed (some p)) (passed s)
        → s ≡ some p
    last p s h = cc

request_sig :
    (tools : CpiTools) (db : Store) (request sig : Fields) (now : ℕ) (signed : Option Fields)
    → get "cpiSignatureData" request ≡ some (obj sig)
    → verify_request_cpi tools db request now ≡ passed signed
    → verify_signed tools db request now sig ≡ passed signed
unfolding verify_request_cpi object_or_empty
request_sig tools db request sig now signed e h = rw e at h

-- If a request with signature data that is not empty is accepted, then its payload names the request's
-- FCC id and serial number, was certified at most five minutes after the clock, carries a signature that
-- is valid under RS256 or ES256 for the public key injected first for the installer whom it names, and is
-- what was merged into the parameters.
pub examine-IsSigned :
    (env : RegistrationChecks) (db : Store) (now : ℕ) (request merged : Fields) (k : String)
    (v : Json) (rest : Fields)
    → get "cpiSignatureData" request ≡ some (obj (field k v rest))
    → examine env db now request ≡ passed merged
    → IsSigned env db now request (field k v rest) merged
examine-IsSigned env db now request merged k v rest e h =
    let x = examine-IsExamined env db now request merged h in
    let (pem, payload, looked_up, bound, same) =
      signed_parts env.tools db request now k v rest x.signed
        (request_sig env.tools db request (field k v rest) now x.signed e x.verified) in
    record {
      pem = pem;
      payload = payload;
      looked_up = looked_up;
      key = bound.key;
      used_key = bound.injected;
      installer =
          peek-IsInstallerKey env.tools db (field k v rest) bound.key
            (looked_up ∙ ap passed bound.injected);
      bound = bound;
      used = rw (← same) x.combined;
    }
