-- ===== src/Registration/Limits.antt =====
-- services/registration_service.py: the site and the power of a registered device.
use sas_core.Prelude.{
  String, Bool, true, false, ◌&&◌, ◌||◌, not, ◌≡◌, refl, Option, none, some, some-injective, sym,
  ◌∙◌, subst, any, ltb, inl, inr, ◌⊎◌, if◌then◌else◌, ◌==◌, string_eq, arith,
}
use sas_core.Prelude.Int.{ℤ, pos, ◌≤ℤ◌}
use sas_core.Number.{Number, finite, nan, infinite, neg_infinite, is_above}
use sas_core.Codes.{invalid_param}
use sas_core.Store.{Store}
use sas_core.Json.{
  Json, null, bool, num, text, arr, obj, Fields, end, field, get, has, given, is_null, number,
  text_of, object_or_empty, truthy,
}
use sas_core.Checked.{
  Checked, passed, ◌>>◌, refuse_when, or_raise, bind_passed, refuse_when_passed, when_passed,
  or_raise_passed,
}
use sas_core.Cpi.{or_invalid}
use sas_core.Registration.Params.{
  air_incomplete, field_missing, installation_incomplete, required_common, has_pending_params,
}
use sas_core.Registration.Validate.{
  RegistrationChecks, text_length, valid_user_id, find_fcc, check_meas, check_number,
  check_coordinates, check_eirp, validate_params,
}
use sas_core.Registration.Table.{number_at, fields_of}
use sas_core.Cpi.Bound.{or_invalid_passed}

unfoldable pub number_of : Option Json → Option Number
number_of none = none
number_of (some v) = number v

pub number_at-get : (key : String) (d : Fields) → number_at key d ≡ number_of (get key d)
unfolding number_at number_of
number_at-get key d = by_value (get key d)
  where
    by_value : (o : Option Json) → (elim o [ none ↦ none | some v ↦ number v ]) ≡ number_of o
    by_value none = refl
    by_value (some v) = refl

unfoldable pub is_given : Option Json → Bool
is_given none = false
is_given (some v) = not (is_null v)

pub given-get : (key : String) (d : Fields) → given key d ≡ is_given (get key d)
unfolding given is_given
given-get key d = by_value (get key d)
  where
    by_value : (o : Option Json) → (elim o [ none ↦ false | some v ↦ not (is_null v) ]) ≡ is_given o
    by_value none = refl
    by_value (some v) = refl

accepted : (b : Bool) → refuse_when b invalid_param ≡ passed tt → b ≡ false
accepted false h = refl
accepted true h = cc

-- A number that is given and let through passes its test.
pub checked_number :
    (bad : Number → Bool) (o : Option Json)
    → check_number bad o ≡ passed tt
    → is_given o ≡ true
    → (n : Number) × (number_of o ≡ some n) × (bad n ≡ false)
unfolding check_number number_of is_given is_null number
checked_number bad none h g = cc
checked_number bad (some null) h g = cc
checked_number bad (some (num n)) h g = (n, refl, accepted (bad n) h)
checked_number bad (some (bool true)) h g =
    (finite (pos 1000), refl, accepted (bad (finite (pos 1000))) h)
checked_number bad (some (bool false)) h g =
    (finite (pos 0), refl, accepted (bad (finite (pos 0))) h)
checked_number bad (some (text s)) h g = cc
checked_number bad (some (arr xs)) h g = cc
checked_number bad (some (obj d)) h g = cc

-- At most a limit; NaN, which no comparison rejects, is let through.
pub data NoMore (limit : ℤ) : Number → Type 0 where
  at_most : {n : ℤ} → n ≤ℤ limit → NoMore limit (finite n)
  lowest : NoMore limit neg_infinite
  not_compared : NoMore limit nan

-- The power that a device names keeps the limits.
abbrev pub PowerIsLawful : Option Number → Option ℤ → Bool → Type 0
PowerIsLawful power cap is_a =
    (power ≡ none)
    ⊎ ((eirp : Number) × (limit : ℤ) × (power ≡ some eirp)
        × (cap ≡ some limit)
        × NoMore limit eirp
        × ((is_a ≡ false) ⊎ NoMore (pos 30_000) eirp))

within_cap : (cap : ℤ) (eirp : Number) → is_above eirp cap ≡ false → NoMore cap eirp
unfolding is_above
within_cap cap (finite n) h = at_most (ground arith)
within_cap cap nan h = not_compared
within_cap cap infinite h = cc
within_cap cap neg_infinite h = lowest

within_a :
    (is_a : Bool) (eirp : Number)
    → (is_a && is_above eirp (pos 30_000)) ≡ false
    → (is_a ≡ false) ⊎ NoMore (pos 30_000) eirp
within_a false eirp h = inl refl
within_a true eirp h = inr (within_cap (pos 30_000) eirp h)

named_power :
    (eirp : Number) (cap : ℤ) (is_a : Bool)
    → (refuse_when (is_above eirp cap) invalid_param
        >> refuse_when (is_a && is_above eirp (pos 30_000)) invalid_param)
      ≡ passed tt
    → PowerIsLawful (some eirp) (some cap) is_a
named_power eirp cap is_a h =
    let (below, rest) = when_passed (is_above eirp cap) invalid_param _ h in
    let low = refuse_when_passed (is_a && is_above eirp (pos 30_000)) invalid_param rest in
    inr (eirp, cap, refl, refl, within_cap cap eirp below, within_a is_a eirp low)

pub checked_power :
    (o : Option Json) (cap : ℤ) (is_a : Bool)
    → check_eirp o cap is_a ≡ passed tt
    → PowerIsLawful (number_of o) (some cap) is_a
unfolding check_eirp number_of number
checked_power none cap is_a h = inl refl
checked_power (some null) cap is_a h = inl refl
checked_power (some (num n)) cap is_a h = named_power n cap is_a h
checked_power (some (bool true)) cap is_a h = named_power (finite (pos 1000)) cap is_a h
checked_power (some (bool false)) cap is_a h = named_power (finite (pos 0)) cap is_a h
checked_power (some (text s)) cap is_a h = cc
checked_power (some (arr xs)) cap is_a h = cc
checked_power (some (obj d)) cap is_a h = cc

pub present_field :
    (merged i : Fields)
    → installation_incomplete merged i ≡ false
    → (any (field_missing i) required_common ≡ false)
unfolding installation_incomplete
present_field merged end h = cc
present_field merged (field k v r) h = ground arith

pub place_given :
    (i : Fields)
    → any (field_missing i) required_common ≡ false
    → (given "latitude" i ≡ true) × (given "longitude" i ≡ true)
unfolding field_missing
place_given i h = ground arith

pub fields_of_object : (o : Option Json) (i : Fields) → object_or_empty o ≡ some i → fields_of o ≡ i
unfolding object_or_empty fields_of truthy
fields_of_object none i h = some-injective _ _ h
fields_of_object (some (obj d)) i h = some-injective _ _ h
fields_of_object (some null) i h = some-injective _ _ h
fields_of_object (some (bool true)) i h = cc
fields_of_object (some (bool false)) i h = some-injective _ _ h
fields_of_object (some v) i h = ground arith

pub determined_installation :
    (merged i : Fields)
    → has_pending_params merged ≡ passed false
    → object_or_empty (get "installationParam" merged) ≡ some i
    → installation_incomplete merged i ≡ false
unfolding has_pending_params
determined_installation merged i h e =
    let (j, hj, r) =
      bind_passed (or_raise (object_or_empty (get "installationParam" merged))) _ h in
    let same : i ≡ j = some-injective _ _ (sym e ∙ or_raise_passed _ hj) in
    let (air, ha, r2) =
      bind_passed
        (if has "cbsdCategory" merged && has "airInterface" merged
          then air_incomplete (get "airInterface" merged)
          else passed true)
        _ r in
    subst (λ (x : Fields). installation_incomplete merged x ≡ false) (sym same)
      (last air (installation_incomplete merged j) r2)
  where
    last : (a b : Bool) → ◌≡◌ {A = Checked Bool} (passed (a || b)) (passed false) → b ≡ false
    last a b h = ground arith

-- What `validate_params` says of the site and of the power.
pub valid_site :
    (env : RegistrationChecks) (db : Store) (request merged i : Fields)
    → validate_params env db request merged ≡ passed tt
    → object_or_empty (get "installationParam" merged) ≡ some i
    → (cap : ℤ) × (find_fcc db.fcc_max_eirps (text_of "fccId" merged) ≡ some cap)
      × (check_coordinates i ≡ passed tt)
      × (check_eirp (get "eirpCapability" i) cap (text_of "cbsdCategory" merged == "A") ≡ passed tt)
unfolding validate_params
valid_site env db request merged i h e =
    let h1 =
      when_passed (ltb 64 (text_length (text_of "cbsdSerialNumber" merged))) invalid_param _ h in
    let h2 = when_passed (ltb 20 (text_length (text_of "fccId" merged))) invalid_param _ h1.1 in
    let h3 = when_passed (not (valid_user_id (text_of "userId" merged))) invalid_param _ h2.1 in
    let (cap, h4, r4) =
      bind_passed (or_invalid (find_fcc db.fcc_max_eirps (text_of "fccId" merged))) _ h3.1 in
    let h5 =
      when_passed (not (any (λ u. u == text_of "userId" merged) db.user_ids)) invalid_param _ r4 in
    let (u6, h6, r6) = bind_passed (check_meas (get "measCapability" merged)) _ h5.1 in
    let (j, h7, r7) =
      bind_passed (or_raise (object_or_empty (get "installationParam" merged))) _ r6 in
    let same : j ≡ i = some-injective _ _ (sym (or_raise_passed _ h7) ∙ e) in
    let (u8, h8, r8) = bind_passed (check_coordinates j) _ r7 in
    let (u9, h9, r9) =
      bind_passed (check_eirp (get "eirpCapability" j) cap (text_of "cbsdCategory" merged == "A")) _
        r8 in
    (
      cap,
      or_invalid_passed _ h4,
      subst (λ (x : Fields). check_coordinates x ≡ passed tt) same h8,
      subst
          (λ (x : Fields).
            check_eirp (get "eirpCapability" x) cap (text_of "cbsdCategory" merged == "A")
            ≡ passed tt)
          same h9,
    )
