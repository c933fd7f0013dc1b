-- ===== src/Cpi/Errors.antt =====
-- services/cpi_signature.py: a signature that is refused is refused with an error code.
use sas_core.Prelude.{ℕ, String, Option, none, some, arith}
use sas_core.Json.{Json, Fields, end, field, arr, obj}
use sas_core.Checked.Errors.{ErrorOnly, of_passed, of_refused, of_raised, error_rules}
use sas_core.Cpi.{
  CpiTools, structural_field, require, installer, or_invalid, structural_cpi_error,
  allowed_algorithm, verify_payload, verify_cpi_signature,
}

structural_field-ErrorOnly : (d : Fields) (name : String) → ErrorOnly (structural_field d name)
unfolding structural_field
structural_field-ErrorOnly d name = search error_rules

require-ErrorOnly : (d : Fields) (name : String) → ErrorOnly (require d name)
unfolding require
require-ErrorOnly d name = search error_rules

pub or_invalid-ErrorOnly {ℓ} : {A : Type ℓ} (o : Option A) → ErrorOnly (or_invalid o)
unfolding or_invalid
or_invalid-ErrorOnly none = of_refused _ (omega arith)
or_invalid-ErrorOnly (some a) = of_passed a

installer-ErrorOnly : (d : Fields) → ErrorOnly (installer d)
unfolding installer
installer-ErrorOnly d = or_invalid-ErrorOnly _

allowed_algorithm-ErrorOnly : (o : Option Json) → ErrorOnly (allowed_algorithm o)
unfolding allowed_algorithm
allowed_algorithm-ErrorOnly (some (arr xs)) = of_raised
allowed_algorithm-ErrorOnly (some (obj d)) = of_raised
allowed_algorithm-ErrorOnly _ = of_passed _

ruleset cpi_rules = (
  error_rules, structural_field-ErrorOnly, require-ErrorOnly, or_invalid-ErrorOnly,
  installer-ErrorOnly, allowed_algorithm-ErrorOnly,
)

pub structural_cpi_error-ErrorOnly :
    (tools : CpiTools) (sig : Fields) → ErrorOnly (structural_cpi_error tools sig)
unfolding structural_cpi_error
structural_cpi_error-ErrorOnly tools end = of_passed tt
structural_cpi_error-ErrorOnly tools (field k v rest) = search cpi_rules depth 40

verify_payload-ErrorOnly :
    (tools : CpiTools) (sig header payload : Fields) (pem : Option String) (fcc_id serial : String)
    (now : ℕ)
    → ErrorOnly (verify_payload tools sig header payload pem fcc_id serial now)
unfolding verify_payload
verify_payload-ErrorOnly tools sig header payload pem fcc_id serial now = search cpi_rules depth 40

pub verify_cpi_signature-ErrorOnly :
    (tools : CpiTools) (sig : Fields) (pem : Option String) (fcc_id serial : String) (now : ℕ)
    → ErrorOnly (verify_cpi_signature tools sig pem fcc_id serial now)
unfolding verify_cpi_signature
verify_cpi_signature-ErrorOnly tools sig pem fcc_id serial now =
    search (cpi_rules, structural_cpi_error-ErrorOnly, verify_payload-ErrorOnly) depth 40
