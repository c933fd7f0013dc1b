-- ===== src/Cpi/Bound.antt =====
-- services/cpi_signature.py: a payload that is trusted was signed for this request.
use sas_core.Prelude.{
  ℕ, ◌+◌, ◌≤◌, String, Bool, true, false, not, ◌||◌, ◌≡◌, Option, none, some, ltb, ◌==◌, string_eq,
  eq_iff, arith, subst, ◌⊎◌, inl, inr,
}
use sas_core.Codes.{missing_param, invalid_param}
use sas_core.Json.{Json, null, bool, num, text, arr, obj, Fields, get, has}
use sas_core.Checked.{Checked, passed, bind_passed, when_passed}
use sas_core.Cpi.{
  CpiTools, text_or_empty, text_field, require, or_invalid, is_object, installer,
  decode_cpi_signed_data, str_of, certified_at, max_future_skew, structural_cpi_error,
  allowed_algorithm, allowed_type, verify_payload, verify_cpi_signature,
}

pub or_invalid_passed {ℓ} :
    {A : Type ℓ} (o : Option A) {a : A} → or_invalid o ≡ passed a → o ≡ some a
unfolding or_invalid
or_invalid_passed none h = cc
or_invalid_passed (some a) h = cc

-- The payload stands in the signature data, names the ids of the request, was certified no more than
-- the skew after the clock, and carries a valid signature of the installer's key.
pub record IsBound (tools : CpiTools) (sig : Fields) (pem : Option String) (fcc_id serial : String)
    (now : ℕ) (payload : Fields) : Type 0 where
  pub decoded : decode_cpi_signed_data tools sig ≡ some payload
  pub for_fcc : str_of tools (get "fccId" payload) ≡ fcc_id
  pub for_serial : str_of tools (get "cbsdSerialNumber" payload) ≡ serial
  pub header : Fields
  pub header_decoded : tools.decode (text_field sig "protectedHeader") ≡ some header
  pub key : String
  pub injected : pem ≡ some key
  pub algorithm : (text_field header "alg" ≡ "RS256") ⊎ (text_field header "alg" ≡ "ES256")
  pub signed :
      tools.signature_valid
        (text_field header "alg")
        (tools.strip key)
        (text_field sig "protectedHeader")
        (text_field sig "encodedCpiSignedData")
        (text_field sig "digitalSignature")
      ≡ true
  pub time : ℕ
  pub installer_data : Fields
  pub named : installer payload ≡ passed installer_data
  pub certified : certified_at tools (get "installCertificationTime" installer_data) ≡ some time
  pub in_time : time ≤ now + max_future_skew

is_true_of : (b : Bool) → not b ≡ false → b ≡ true
is_true_of b h = ground arith

not_past : (a b : ℕ) → ltb a b ≡ false → b ≤ a
not_past a b h = ground arith

same_text : (a b : String) → not (a == b) ≡ false → a ≡ b
same_text a b h = (eq_iff a b).0 (is_true_of (a == b) h)

one_of : (a b : Bool) → (a || b) ≡ true → (a ≡ true) ⊎ (b ≡ true)
one_of a b h = ground arith

algorithm_of :
    (o : Option Json) (known : Bool)
    → allowed_algorithm o ≡ passed known
    → known ≡ true
    → (text_or_empty o ≡ "RS256") ⊎ (text_or_empty o ≡ "ES256")
unfolding allowed_algorithm text_or_empty
algorithm_of none known h k = cc
algorithm_of (some null) known h k = cc
algorithm_of (some (bool b)) known h k = cc
algorithm_of (some (num n)) known h k = cc
algorithm_of (some (arr xs)) known h k = cc
algorithm_of (some (obj d)) known h k = cc
algorithm_of (some (text s)) known h k =
    let hit : (s == "RS256" || s == "ES256") ≡ true = cc in
    elim (one_of (s == "RS256") (s == "ES256") hit) [
      | inl e ↦ inl ((eq_iff s "RS256").0 e)
      | inr e ↦ inr ((eq_iff s "ES256").0 e)
    ]

known_algorithm :
    (d : Fields) (known : Bool)
    → allowed_algorithm (get "alg" d) ≡ passed known
    → known ≡ true
    → (text_field d "alg" ≡ "RS256") ⊎ (text_field d "alg" ≡ "ES256")
unfolding text_field
known_algorithm d known h k = algorithm_of (get "alg" d) known h k

payload-IsBound :
    (tools : CpiTools) (sig header payload : Fields) (pem : Option String) (fcc_id serial : String)
    (now : ℕ) (result : Fields)
    → decode_cpi_signed_data tools sig ≡ some payload
    → tools.decode (text_field sig "protectedHeader") ≡ some header
    → (text_field header "alg" ≡ "RS256") ⊎ (text_field header "alg" ≡ "ES256")
    → verify_payload tools sig header payload pem fcc_id serial now ≡ passed result
    → IsBound tools sig pem fcc_id serial now result
unfolding verify_payload
payload-IsBound tools sig header payload pem fcc_id serial now result decoded opened alg h =
    let (prof, h1, r1) = bind_passed (installer payload) _ h in
    let h2 = when_passed (not (has "cpiId" prof)) missing_param _ r1 in
    let (at, h3, r3) =
      bind_passed (or_invalid (certified_at tools (get "installCertificationTime" prof))) _ h2.1 in
    let h4 = when_passed (ltb (now + max_future_skew) at) invalid_param _ r3 in
    let (u5, h5, r5) = bind_passed (require payload "fccId") _ h4.1 in
    let (u6, h6, r6) = bind_passed (require payload "cbsdSerialNumber") _ r5 in
    let h7 = when_passed (not (str_of tools (get "fccId" payload) == fcc_id)) invalid_param _ r6 in
    let h8 =
      when_passed (not (str_of tools (get "cbsdSerialNumber" payload) == serial)) invalid_param _
        h7.1 in
    let h9 = when_passed (not (is_object (get "installationParam" payload))) invalid_param _ h8.1 in
    let (key, h10, r10) = bind_passed (or_invalid pem) _ h9.1 in
    let h11 = when_passed (tools.strip key == "") invalid_param _ r10 in
    let h12 =
      when_passed
        (not (
          tools.signature_valid (text_field header "alg") (tools.strip key)
            (text_field sig "protectedHeader") (text_field sig "encodedCpiSignedData")
            (text_field sig "digitalSignature")))
        invalid_param _ h11.1 in
    subst (IsBound tools sig pem fcc_id serial now) (same_passed payload result h12.1) (record {
      decoded = decoded;
      for_fcc = same_text _ _ h7.0;
      for_serial = same_text _ _ h8.0;
      header = header;
      header_decoded = opened;
      key = key;
      injected = or_invalid_passed pem h10;
      algorithm = alg;
      signed = is_true_of _ h12.0;
      time = at;
      installer_data = prof;
      named = h1;
      certified = or_invalid_passed _ h3;
      in_time = not_past (now + max_future_skew) at h4.0;
    })
  where
    same_passed : (a b : Fields) → ◌≡◌ {A = Checked Fields} (passed a) (passed b) → a ≡ b
    same_passed a b h = cc

-- Whatever `verify_cpi_signature` returns is bound to the request.
pub verify_cpi_signature-IsBound :
    (tools : CpiTools) (sig : Fields) (pem : Option String) (fcc_id serial : String) (now : ℕ)
    (payload : Fields)
    → verify_cpi_signature tools sig pem fcc_id serial now ≡ passed payload
    → IsBound tools sig pem fcc_id serial now payload
unfolding verify_cpi_signature
verify_cpi_signature-IsBound tools sig pem fcc_id serial now payload h =
    let (u1, h1, r1) = bind_passed (structural_cpi_error tools sig) _ h in
    let (header, h2, r2) =
      bind_passed (or_invalid (tools.decode (text_field sig "protectedHeader"))) _ r1 in
    let (known, h3, r3) = bind_passed (allowed_algorithm (get "alg" header)) _ r2 in
    let h4 = when_passed (not known) invalid_param _ r3 in
    let h5 = when_passed (not (allowed_type (get "typ" header))) invalid_param _ h4.1 in
    let (found, h6, r6) = bind_passed (or_invalid (decode_cpi_signed_data tools sig)) _ h5.1 in
    payload-IsBound tools sig header found pem fcc_id serial now payload (or_invalid_passed _ h6)
      (or_invalid_passed _ h2) (known_algorithm header known h3 (is_true_of known h4.0)) r6
