-- ===== src/Checked.antt =====
-- The result of a check in the registration procedure: it passes with a value, refuses with a response
-- code, or raises an exception that nobody catches.
pub mod Errors
use sas_core.Prelude.{ℕ, Bool, true, false, ◌≡◌, refl, Option, none, some, Bool-cases, inl, inr}

pub data Checked {ℓ} (A : Type ℓ) : Type ℓ where
  passed : A → Checked A
  refused : ℕ → Checked A
  raised : Checked A

infixl 5 ◌>>=◌ ◌>>◌
abbrev pub ◌>>=◌ {ℓ κ} : {A : Type ℓ} {B : Type κ} → Checked A → (A → Checked B) → Checked B
passed a >>= f = f a
refused code >>= f = refused code
raised >>= f = raised

abbrev pub ◌>>◌ {ℓ} : {B : Type ℓ} → Checked (Unit {0}) → Checked B → Checked B
m >> k = m >>= λ _. k

-- `if test: return code`
abbrev pub refuse_when : Bool → ℕ → Checked (Unit {0})
refuse_when true code = refused code
refuse_when false code = passed tt

-- A value whose absence makes Python raise.
abbrev pub or_raise {ℓ} : {A : Type ℓ} → Option A → Checked A
or_raise none = raised
or_raise (some a) = passed a

-- What a passing sequence of checks says of its first.
pub bind_passed {ℓ κ} :
    {A : Type ℓ} {B : Type κ} (m : Checked A) (f : A → Checked B) {b : B}
    → (m >>= f) ≡ passed b
    → (a : A) × (m ≡ passed a) × (f a ≡ passed b)
bind_passed (passed a) f h = (a, refl, h)
bind_passed (refused code) f h = cc
bind_passed raised f h = cc

pub refuse_when_passed :
    (test : Bool) (code : ℕ) {u : Unit {0}} → refuse_when test code ≡ passed u → test ≡ false
refuse_when_passed true code h = cc
refuse_when_passed false code h = refl

-- The first of two checks passed, and so did the second.
pub when_passed {ℓ} :
    {B : Type ℓ} (test : Bool) (code : ℕ) (k : Checked B) {b : B}
    → (refuse_when test code >> k) ≡ passed b
    → (test ≡ false) × (k ≡ passed b)
when_passed true code k h = cc
when_passed false code k h = (refl, h)

pub or_raise_passed {ℓ} : {A : Type ℓ} (o : Option A) {a : A} → or_raise o ≡ passed a → o ≡ some a
or_raise_passed none h = cc
or_raise_passed (some a) h = cc
