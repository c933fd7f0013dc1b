-- ===== src/Cpi.antt =====
-- services/cpi_signature.py: the signed installation data of a registration request. Decoding
-- (base64, JSON, dates) and the signature itself are libraries' and enter as `CpiTools`.
pub mod Errors
pub mod Bound
use sas_core.Prelude.{
  ℕ, ◌+◌, ◌*◌, String, Bool, true, false, ◌&&◌, ◌||◌, not, Option, none, some, ltb, if◌then◌else◌,
  ◌==◌, string_eq,
}
use sas_core.Clock.{second}
use sas_core.Codes.{missing_param, invalid_param}
use sas_core.Json.{Json, null, text, arr, obj, Fields, end, get, has, object_or_empty}
use sas_core.Checked.{Checked, passed, refused, raised, ◌>>=◌, ◌>>◌, refuse_when, or_raise}

-- What the code asks of its libraries.
pub record CpiTools : Type 0 where
  -- `json.loads(b64url_decode(text))`, of a JSON object; `none` where decoding fails
  pub decode : String → Option Fields
  -- Python's `str`, of a value that is no text
  pub shown : Json → String
  -- `str.strip`
  pub strip : String → String
  -- `datetime.strptime` of an installation time, in microseconds; `none` where it raises
  pub parse_time : String → Option ℕ
  -- loading the key and checking the signature: algorithm, key, header, payload, signature
  pub signature_valid : String → String → String → String → String → Bool

-- `value in (None, "")`, also of a key that is not there
unfoldable pub is_blank_json : Option Json → Bool
is_blank_json none = true
is_blank_json (some null) = true
is_blank_json (some (text s)) = s == ""
is_blank_json (some _) = false

unfoldable pub is_text : Option Json → Bool
is_text (some (text s)) = true
is_text _ = false

unfoldable pub is_object : Option Json → Bool
is_object (some (obj d)) = true
is_object _ = false

unfoldable pub structural_field : Fields → String → Checked (Unit {0})
structural_field sig name = do
  refuse_when (is_blank_json (get name sig)) missing_param
  refuse_when (not (is_text (get name sig))) invalid_param

unfoldable pub require : Fields → String → Checked (Unit {0})
require d name = refuse_when (is_blank_json (get name d)) missing_param

unfoldable pub text_or_empty : Option Json → String
text_or_empty (some (text s)) = s
text_or_empty _ = ""

-- `d.get(name)` of a text field
unfoldable pub text_field : Fields → String → String
unfolding text_or_empty
text_field d name = text_or_empty (get name d)

unfoldable pub decode_cpi_signed_data : CpiTools → Fields → Option Fields
decode_cpi_signed_data tools sig =
    let encoded = text_field sig "encodedCpiSignedData" in
    if encoded == "" then none else tools.decode encoded

unfoldable pub or_invalid {ℓ} : {A : Type ℓ} → Option A → Checked A
or_invalid none = refused invalid_param
or_invalid (some a) = passed a

-- `signed.get("professionalInstallerData") or {}`, which has to be an object
unfoldable pub installer : Fields → Checked Fields
unfolding or_invalid
installer signed = or_invalid (object_or_empty (get "professionalInstallerData" signed))

unfoldable pub structural_cpi_error : CpiTools → Fields → Checked (Unit {0})
structural_cpi_error tools end = passed tt
structural_cpi_error tools sig = do
  structural_field sig "digitalSignature"
  structural_field sig "encodedCpiSignedData"
  structural_field sig "protectedHeader"
  signed ← or_invalid (decode_cpi_signed_data tools sig)
  require signed "fccId"
  require signed "cbsdSerialNumber"
  require signed "installationParam"
  refuse_when (not (is_object (get "installationParam" signed))) invalid_param
  prof ← installer signed
  require prof "cpiId"
  require prof "installCertificationTime"

-- Python's `str`
unfoldable pub str_of : CpiTools → Option Json → String
str_of tools none = "None"
str_of tools (some (text s)) = s
str_of tools (some v) = tools.shown v

-- `alg in ALLOWED_ALGORITHMS`; a list or an object has no hash, and the test raises.
unfoldable pub allowed_algorithm : Option Json → Checked Bool
allowed_algorithm (some (text s)) = passed (s == "RS256" || s == "ES256")
allowed_algorithm (some (arr xs)) = raised
allowed_algorithm (some (obj d)) = raised
allowed_algorithm _ = passed false

-- `typ is None or typ == "JWT"`
unfoldable pub allowed_type : Option Json → Bool
allowed_type none = true
allowed_type (some null) = true
allowed_type (some (text s)) = s == "JWT"
allowed_type (some _) = false

unfoldable pub certified_at : CpiTools → Option Json → Option ℕ
certified_at tools (some (text s)) = tools.parse_time s
certified_at tools _ = none

unfoldable pub max_future_skew : ℕ
max_future_skew = 5 * 60 * second

-- The algorithm is `alg`, of the decoded header; `pem` is the key that was injected for the installer.
unfoldable pub verify_payload :
    CpiTools → Fields → Fields → Fields → Option String → String → String → ℕ → Checked Fields
verify_payload tools sig header payload pem fcc_id serial now = do
  prof ← installer payload
  refuse_when (not (has "cpiId" prof)) missing_param
  at ← or_invalid (certified_at tools (get "installCertificationTime" prof))
  refuse_when (ltb (now + max_future_skew) at) invalid_param
  require payload "fccId"
  require payload "cbsdSerialNumber"
  refuse_when (not (str_of tools (get "fccId" payload) == fcc_id)) invalid_param
  refuse_when (not (str_of tools (get "cbsdSerialNumber" payload) == serial)) invalid_param
  refuse_when (not (is_object (get "installationParam" payload))) invalid_param
  key ← or_invalid pem
  refuse_when (tools.strip key == "") invalid_param
  refuse_when
      (not (
        tools.signature_valid (text_field header "alg") (tools.strip key)
          (text_field sig "protectedHeader") (text_field sig "encodedCpiSignedData")
          (text_field sig "digitalSignature")))
      invalid_param
  passed payload

unfoldable pub verify_cpi_signature :
    CpiTools → Fields → Option String → String → String → ℕ → Checked Fields
verify_cpi_signature tools sig pem fcc_id serial now = do
  structural_cpi_error tools sig
  header ← or_invalid (tools.decode (text_field sig "protectedHeader"))
  known ← allowed_algorithm (get "alg" header)
  refuse_when (not known) invalid_param
  refuse_when (not (allowed_type (get "typ" header))) invalid_param
  payload ← or_invalid (decode_cpi_signed_data tools sig)
  verify_payload tools sig header payload pem fcc_id serial now
