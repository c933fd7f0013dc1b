-- ===== src/Registration/Errors.antt =====
-- services/registration_service.py: a request that `examine` refuses is refused with an error code.
use sas_core.Prelude.{
  Bool-cases, inl, inr, ℕ, String, Bool, true, false, if◌then◌else◌, Option, none, some, arith,
}
use sas_core.Prelude.Int.{ℤ}
use sas_core.Codes.{blacklisted, pending}
use sas_core.Number.{Number}
use sas_core.Json.{
  Json, null, bool, num, text, arr, obj, Items, nil, cons, Fields, end, field, number,
}
use sas_core.Checked.{Checked, refuse_when}
use sas_core.Checked.Errors.{
  ErrorOnly, of_passed, of_refused, of_raised, error_rules, ErrorOnly-when,
}
use sas_core.Cpi.{CpiTools}
use sas_core.Cpi.Errors.{
  or_invalid-ErrorOnly, structural_cpi_error-ErrorOnly, verify_cpi_signature-ErrorOnly,
}
use sas_core.Store.{Store}
use sas_core.Registration.Params.{
  has_text, has_item, merge_installation, merge_registration, peek_key, verify_signed,
  verify_request_cpi, air_incomplete, has_pending_params,
}
use sas_core.Registration.Validate.{
  RegistrationChecks, check_meas_item, check_meas_items, check_meas, check_number,
  check_coordinates, check_eirp, check_outdoor, check_site, validate_params,
}
use sas_core.Registration.Handler.{examine}

merge_installation-ErrorOnly :
    (o : Option Json) (merged : Fields) → ErrorOnly (merge_installation o merged)
unfolding merge_installation
merge_installation-ErrorOnly none merged = of_passed merged
merge_installation-ErrorOnly (some (obj d)) merged = search error_rules
merge_installation-ErrorOnly (some null) merged = of_raised
merge_installation-ErrorOnly (some (bool b)) merged = of_raised
merge_installation-ErrorOnly (some (num n)) merged = of_raised
merge_installation-ErrorOnly (some (text s)) merged = of_raised
merge_installation-ErrorOnly (some (arr xs)) merged = of_raised

merge_registration-ErrorOnly :
    (request conditionals : Fields) (verified : Option Fields)
    → ErrorOnly (merge_registration request conditionals verified)
unfolding merge_registration
merge_registration-ErrorOnly request conditionals none = of_passed _
merge_registration-ErrorOnly request conditionals (some end) = of_passed _
merge_registration-ErrorOnly request conditionals (some (field k v rest)) =
    search (error_rules, merge_installation-ErrorOnly)

peek_key-ErrorOnly :
    (tools : CpiTools) (db : Store) (sig : Fields) → ErrorOnly (peek_key tools db sig)
unfolding peek_key
peek_key-ErrorOnly tools db sig = search error_rules

verify_signed-ErrorOnly :
    (tools : CpiTools) (db : Store) (request : Fields) (now : ℕ) (sig : Fields)
    → ErrorOnly (verify_signed tools db request now sig)
unfolding verify_signed
verify_signed-ErrorOnly tools db request now end = of_passed none
verify_signed-ErrorOnly tools db request now (field k v rest) =
    search
      (
        error_rules, structural_cpi_error-ErrorOnly, peek_key-ErrorOnly,
        verify_cpi_signature-ErrorOnly,
      )
      depth 20

verify_request_cpi-ErrorOnly :
    (tools : CpiTools) (db : Store) (request : Fields) (now : ℕ)
    → ErrorOnly (verify_request_cpi tools db request now)
unfolding verify_request_cpi
verify_request_cpi-ErrorOnly tools db request now = search (error_rules, verify_signed-ErrorOnly)

check_meas_item-ErrorOnly : (j : Json) → ErrorOnly (check_meas_item j)
unfolding check_meas_item
check_meas_item-ErrorOnly (text s) = search error_rules
check_meas_item-ErrorOnly (arr xs) = of_raised
check_meas_item-ErrorOnly (obj d) = of_raised
check_meas_item-ErrorOnly _ = of_refused _ (omega arith)

check_meas_items-ErrorOnly : (xs : Items) → ErrorOnly (check_meas_items xs)
unfolding check_meas_items
check_meas_items-ErrorOnly nil = of_passed tt
check_meas_items-ErrorOnly (cons x xs) =
    search (error_rules, check_meas_item-ErrorOnly, check_meas_items-ErrorOnly xs)

check_meas-ErrorOnly : (o : Option Json) → ErrorOnly (check_meas o)
unfolding check_meas
check_meas-ErrorOnly none = of_passed tt
check_meas-ErrorOnly (some null) = of_passed tt
check_meas-ErrorOnly (some (arr xs)) = check_meas_items-ErrorOnly xs
check_meas-ErrorOnly (some (bool b)) = of_refused _ (omega arith)
check_meas-ErrorOnly (some (num n)) = of_refused _ (omega arith)
check_meas-ErrorOnly (some (text s)) = of_refused _ (omega arith)
check_meas-ErrorOnly (some (obj d)) = of_refused _ (omega arith)

check_number-ErrorOnly : (bad : Number → Bool) (o : Option Json) → ErrorOnly (check_number bad o)
unfolding check_number number
check_number-ErrorOnly bad none = of_passed tt
check_number-ErrorOnly bad (some null) = of_passed tt
check_number-ErrorOnly bad (some (num n)) = search error_rules
check_number-ErrorOnly bad (some (bool true)) = search error_rules
check_number-ErrorOnly bad (some (bool false)) = search error_rules
check_number-ErrorOnly bad (some (text s)) = of_refused _ (omega arith)
check_number-ErrorOnly bad (some (arr xs)) = of_refused _ (omega arith)
check_number-ErrorOnly bad (some (obj d)) = of_refused _ (omega arith)

check_coordinates-ErrorOnly : (d : Fields) → ErrorOnly (check_coordinates d)
unfolding check_coordinates
check_coordinates-ErrorOnly d = search (error_rules, check_number-ErrorOnly) depth 20

given_eirp-ErrorOnly : (v : Json) (cap : ℤ) (is_a : Bool) → ErrorOnly (check_eirp (some v) cap is_a)
unfolding check_eirp
given_eirp-ErrorOnly null cap is_a = of_passed tt
given_eirp-ErrorOnly (num n) cap is_a = search error_rules depth 20
given_eirp-ErrorOnly (bool b) cap is_a = search error_rules depth 20
given_eirp-ErrorOnly (text s) cap is_a = search error_rules depth 20
given_eirp-ErrorOnly (arr xs) cap is_a = search error_rules depth 20
given_eirp-ErrorOnly (obj d) cap is_a = search error_rules depth 20

check_eirp-ErrorOnly : (o : Option Json) (cap : ℤ) (is_a : Bool) → ErrorOnly (check_eirp o cap is_a)
unfolding check_eirp
check_eirp-ErrorOnly none cap is_a = of_passed tt
check_eirp-ErrorOnly (some v) cap is_a = given_eirp-ErrorOnly v cap is_a

check_outdoor-ErrorOnly : (env : RegistrationChecks) (d : Fields) → ErrorOnly (check_outdoor env d)
unfolding check_outdoor
check_outdoor-ErrorOnly env d = search error_rules depth 20

ErrorOnly-if {ℓ} :
    {A : Type ℓ} (b : Bool) (m n : Checked A)
    → ErrorOnly m
    → ErrorOnly n
    → ErrorOnly (if b then m else n)
ErrorOnly-if true m n h k = h
ErrorOnly-if false m n h k = k

check_site-ErrorOnly :
    (env : RegistrationChecks) (d : Fields) (category : String)
    → ErrorOnly (check_site env d category)
unfolding check_site
check_site-ErrorOnly env d category = search (error_rules, ErrorOnly-if, check_outdoor-ErrorOnly)

validate_params-ErrorOnly :
    (env : RegistrationChecks) (db : Store) (request merged : Fields)
    → ErrorOnly (validate_params env db request merged)
unfolding validate_params
validate_params-ErrorOnly env db request merged =
    search
      (
        error_rules, or_invalid-ErrorOnly, check_meas-ErrorOnly, check_coordinates-ErrorOnly,
        check_eirp-ErrorOnly, check_site-ErrorOnly,
      )
      depth 40

air_incomplete-ErrorOnly : (o : Option Json) → ErrorOnly (air_incomplete o)
unfolding air_incomplete
air_incomplete-ErrorOnly none = of_raised
air_incomplete-ErrorOnly (some null) = of_raised
air_incomplete-ErrorOnly (some (bool b)) = of_raised
air_incomplete-ErrorOnly (some (num n)) = of_raised
air_incomplete-ErrorOnly (some (obj d)) = of_passed _
air_incomplete-ErrorOnly (some (text s)) = elim (Bool-cases (has_text "radioTechnology" s)) [
  | inl t ↦ rw t of_raised
  | inr f ↦ rw f (of_passed _)
]
air_incomplete-ErrorOnly (some (arr xs)) = elim (Bool-cases (has_item "radioTechnology" xs)) [
  | inl t ↦ rw t of_raised
  | inr f ↦ rw f (of_passed _)
]

has_pending_params-ErrorOnly : (merged : Fields) → ErrorOnly (has_pending_params merged)
unfolding has_pending_params
has_pending_params-ErrorOnly merged =
    search (error_rules, ErrorOnly-if, air_incomplete-ErrorOnly) depth 20

blacklisted-ErrorOnly : (test : Bool) → ErrorOnly (refuse_when test blacklisted)
blacklisted-ErrorOnly test = ErrorOnly-when test blacklisted (omega arith)

pending-ErrorOnly : (test : Bool) → ErrorOnly (refuse_when test pending)
pending-ErrorOnly test = ErrorOnly-when test pending (omega arith)

pub examine-ErrorOnly :
    (env : RegistrationChecks) (db : Store) (now : ℕ) (request : Fields)
    → ErrorOnly (examine env db now request)
unfolding examine
examine-ErrorOnly env db now request =
    search
      (
        error_rules, blacklisted-ErrorOnly, pending-ErrorOnly, verify_request_cpi-ErrorOnly,
        merge_registration-ErrorOnly, validate_params-ErrorOnly, has_pending_params-ErrorOnly,
      )
      depth 40
