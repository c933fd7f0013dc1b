-- ===== src/Registration/Written.antt =====
-- services/registration_service.py: the row that a registration writes, and its certificate.
use sas_core.Prelude.{
  ℕ, String, Bool, true, false, ◌≡◌, ◌≢◌, refl, Option, none, some, eq_iff, List, [], ◌∷◌,
  if◌then◌else◌, ◌==◌, string_eq, arith,
}
use sas_core.Codes.{success}
use sas_core.Records.{Cbsd}
use sas_core.Auth.{cbsd_certificate_mismatch, same_codes, upper, fingerprints_differ, is_blank}
use sas_core.Lifecycle.{
  CbsdState, CbsdEvent, Payload, evaluate_cbsd_transition, check_cbsd, cbsd_transitions,
  apply_cbsd_state, cbsd_state_value,
}
use sas_core.Json.{Fields}
use sas_core.Registration.Table.{registration_of, update_cbsd, new_cbsd}

-- The row that a registration writes.
pub record IsRegistered (cid : String) (hash : Option String) (merged : Fields) (c : Cbsd)
    : Type 0 where
  pub key : c.cbsd_id ≡ cid
  pub state : c.lifecycle_state ≡ "REGISTERED"
  pub parameters : c.registration ≡ registration_of merged
  pub certificate : cbsd_certificate_mismatch c hash ≡ false

pub refused_code :
    (e : CbsdEvent) (s : CbsdState) (p : Payload)
    → (evaluate_cbsd_transition e s p).is_ok ≡ false
    → (evaluate_cbsd_transition e s p).response_code ≢ success
unfolding evaluate_cbsd_transition check_cbsd cbsd_transitions
refused_code e s p h = ground arith

same_codes_refl : (xs : List ℕ) → same_codes xs xs ≡ true
unfolding same_codes
same_codes_refl [] = refl
same_codes_refl (x ∷ xs) = ground (arith, same_codes_refl xs)

differ_self : (o : Option String) → fingerprints_differ o o ≡ false
unfolding fingerprints_differ
differ_self none = refl
differ_self (some h) = rw (same_codes_refl (upper h)) refl

-- A row bound to the certificate of the request is no mismatch.
own_certificate :
    (c : Cbsd) (hash : Option String)
    → c.certificate_hash ≡ hash
    → cbsd_certificate_mismatch c hash ≡ false
unfolding cbsd_certificate_mismatch
own_certificate c hash e = by_hash c.certificate_hash hash e
  where
    by_blank : (b : Bool) → (if b then false else if b then true else false) ≡ false
    by_blank true = refl
    by_blank false = refl

    by_hash :
        (old hash : Option String)
        → old ≡ hash
        → (if is_blank old
            then false
            else if is_blank hash
            then true
            else fingerprints_differ old hash)
          ≡ false
    by_hash old hash e = rw (e, differ_self hash) (by_blank (is_blank hash))

-- The renewed binding fits the certificate that was let through.
renewed_certificate :
    (c : Cbsd) (hash : Option String) (request merged : Fields)
    → cbsd_certificate_mismatch c hash ≡ false
    → cbsd_certificate_mismatch (update_cbsd c hash request merged) hash ≡ false
unfolding update_cbsd cbsd_certificate_mismatch apply_cbsd_state
renewed_certificate c none request merged h = h
renewed_certificate c (some f) request merged h =
    own_certificate (update_cbsd c (some f) request merged) (some f) refl

new_certificate :
    (pk : ℕ) (cid : String) (hash : Option String) (request merged : Fields)
    → cbsd_certificate_mismatch (new_cbsd pk cid hash request merged) hash ≡ false
unfolding new_cbsd
new_certificate pk cid hash request merged =
    own_certificate (new_cbsd pk cid hash request merged) hash refl

pub pk-update :
    (c : Cbsd) (hash : Option String) (request merged : Fields)
    → (update_cbsd c hash request merged).pk ≡ c.pk
unfolding update_cbsd apply_cbsd_state
pk-update c hash request merged = refl

pub id-update :
    (c : Cbsd) (hash : Option String) (request merged : Fields)
    → (update_cbsd c hash request merged).cbsd_id ≡ c.cbsd_id
unfolding update_cbsd apply_cbsd_state
id-update c hash request merged = refl

pub new-IsRegistered :
    (pk : ℕ) (cid : String) (hash : Option String) (request merged : Fields)
    → IsRegistered cid hash merged (new_cbsd pk cid hash request merged)
unfolding new_cbsd cbsd_state_value
new-IsRegistered pk cid hash request merged = record {
  key = refl;
  state = refl;
  parameters = refl;
  certificate = new_certificate pk cid hash request merged;
}

pub update-IsRegistered :
    (cid : String) (hash : Option String) (c : Cbsd) (request merged : Fields)
    → (c.cbsd_id == cid) ≡ true
    → cbsd_certificate_mismatch c hash ≡ false
    → IsRegistered cid hash merged (update_cbsd c hash request merged)
unfolding update_cbsd apply_cbsd_state
update-IsRegistered cid hash c request merged e bound = record {
  key = (eq_iff c.cbsd_id cid).0 e;
  state = refl;
  parameters = refl;
  certificate = renewed_certificate c hash request merged bound;
}
