-- ===== src/Checked/Errors.antt =====
-- A check that refuses does not refuse with the code of success.
use sas_core.Prelude.{ℕ, Bool, true, false, ◌≢◌, Option, none, some, arith}
use sas_core.Codes.{success, missing_param, invalid_param}
use sas_core.Checked.{Checked, passed, refused, raised, ◌>>=◌, refuse_when, or_raise}

-- Its refusals carry an error code.
pub data ErrorOnly {ℓ} {A : Type ℓ} : Checked A → Type ℓ where
  of_passed : (a : A) → ErrorOnly (passed a)
  of_refused : (code : ℕ) → code ≢ success → ErrorOnly (refused code)
  of_raised : ErrorOnly raised

pub ErrorOnly-bind {ℓ κ} :
    {A : Type ℓ} {B : Type κ} (m : Checked A) (f : A → Checked B)
    → ErrorOnly m
    → ((a : A) → ErrorOnly (f a))
    → ErrorOnly (m >>= f)
ErrorOnly-bind (passed a) f h k = k a
ErrorOnly-bind (refused code) f (of_refused _ e) k = of_refused code e
ErrorOnly-bind raised f h k = of_raised

pub ErrorOnly-when : (test : Bool) (code : ℕ) → code ≢ success → ErrorOnly (refuse_when test code)
ErrorOnly-when true code h = of_refused code h
ErrorOnly-when false code h = of_passed tt

pub ErrorOnly-missing : (test : Bool) → ErrorOnly (refuse_when test missing_param)
ErrorOnly-missing test = ErrorOnly-when test missing_param (omega arith)

pub ErrorOnly-invalid : (test : Bool) → ErrorOnly (refuse_when test invalid_param)
ErrorOnly-invalid test = ErrorOnly-when test invalid_param (omega arith)

pub ErrorOnly-or_raise {ℓ} : {A : Type ℓ} (o : Option A) → ErrorOnly (or_raise o)
ErrorOnly-or_raise none = of_raised
ErrorOnly-or_raise (some a) = of_passed a

pub ruleset error_rules =
    (of_passed, of_raised, ErrorOnly-bind, ErrorOnly-missing, ErrorOnly-invalid, ErrorOnly-or_raise)
