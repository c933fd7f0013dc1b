-- ===== src/Registration/Departed.antt =====
-- services/registration_service.py and services/deregistration_service.py: a CBSD that registered can
-- leave again.
use Prim.Native.String.{◌++◌ as concat, count}
use text.Mathlib.TextLemmas.{length-append}
use sas_core.Prelude.{
  ℕ, ◌<◌, String, true, false, ◌≡◌, refl, ◌∙◌, ap, Option, none, some, some-injective, eq_iff, [],
  ◌∷◌, Bool-cases, inl, inr, if◌then◌else◌, ◌==◌, string_eq, arith,
}
use sas_core.Codes.{success}
use sas_core.Records.{Cbsd}
use sas_core.Store.{Store}
use sas_core.Auth.{cbsd_certificate_mismatch, lock_cbsd_row}
use sas_core.Lifecycle.{
  CbsdState, deregister, registered, TransitionOutcome, resolve_cbsd_state, cbsd_state_of,
  evaluate_cbsd_transition, check_cbsd, cbsd_transitions,
}
use sas_core.Rows.{present}
use sas_core.Deregistration.{
  DeregistrationReply, answer, deregister_cbsd, deregister_locked, deregister_id, deregister_one,
}
use sas_core.Deregistration.Gone.{Absent, deleted-Absent}
use sas_core.Json.{Fields, text_of}
use sas_core.Registration.Validate.{RegistrationChecks}
use sas_core.Registration.Keyed.{Keyed}
use sas_core.Registration.Handler.{
  RegistrationRequest, RegistrationReply, make_cbsd_id, register_one,
}
use sas_core.Registration.Entered.{Failed, register-Registers}
use sas_core.Registration.Invariant.{FreshPk, register-Keyed}

-- An id has its slash.
cbsd_id_length : (request : Fields) → 0 < count (make_cbsd_id request)
unfolding make_cbsd_id
cbsd_id_length request =
    let f = text_of "fccId" request in
    let s = text_of "cbsdSerialNumber" request in
    omega (arith, length-append f (concat "/" s), length-append "/" s)

not_blank : (s : String) → 0 < count s → (s == "") ≡ false
not_blank s h = elim (Bool-cases (s == "")) [
  | inr f ↦ f
  | inl e ↦
      let empty : count s ≡ count "" = ap count ((eq_iff s "").0 e) in absurd (omega (arith, empty))
]

state_registered :
    (c : Cbsd) → c.lifecycle_state ≡ "REGISTERED" → resolve_cbsd_state (some c) ≡ registered
unfolding resolve_cbsd_state cbsd_state_of
state_registered c h = rw h refl

-- DEREGISTER is accepted for a registered CBSD.
deregister_accepted :
    (cid : String)
    → (cid == "") ≡ false
    → (evaluate_cbsd_transition deregister registered (("cbsdId", cid) ∷ [])).is_ok ≡ true
unfolding evaluate_cbsd_transition check_cbsd cbsd_transitions
deregister_accepted cid h = ground arith

abbrev Leaves : DeregistrationReply × Store → String → Cbsd → Type 0
Leaves r cid c = (r.0 ≡ answer success (some cid)) × Absent r.1 cid c

cbsd-Leaves :
    (db : Store) (cid : String) (now : ℕ) (c : Cbsd) (o : TransitionOutcome CbsdState)
    → Keyed db.cbsds
    → lock_cbsd_row db.cbsds cid ≡ some c
    → o.is_ok ≡ true
    → Leaves (deregister_cbsd db cid now c o) cid c
unfolding deregister_cbsd
cbsd-Leaves db cid now c o v found fine = rw fine (refl, deleted-Absent db cid now c v.ids found)

locked-Leaves :
    (db : Store) (hash : Option String) (cid : String) (now : ℕ) (c : Cbsd)
    → Keyed db.cbsds
    → lock_cbsd_row db.cbsds cid ≡ some c
    → cbsd_certificate_mismatch c hash ≡ false
    → c.lifecycle_state ≡ "REGISTERED"
    → (cid == "") ≡ false
    → Leaves (deregister_locked db hash cid now (some c)) cid c
unfolding deregister_locked
locked-Leaves db hash cid now c v found bound state named =
    let fine : (evaluate_cbsd_transition deregister (resolve_cbsd_state (some c))
          (("cbsdId", cid) ∷ [])).is_ok
        ≡ true =
      ap (λ (s : CbsdState). (evaluate_cbsd_transition deregister s (("cbsdId", cid) ∷ [])).is_ok)
        (state_registered c state)
      ∙ deregister_accepted cid named in
    rw bound (cbsd-Leaves db cid now c _ v found fine)

one-Leaves :
    (db : Store) (hash : Option String) (cid : String) (now : ℕ) (c : Cbsd)
    → Keyed db.cbsds
    → lock_cbsd_row db.cbsds cid ≡ some c
    → cbsd_certificate_mismatch c hash ≡ false
    → c.lifecycle_state ≡ "REGISTERED"
    → (cid == "") ≡ false
    → Leaves (deregister_one hash db now (some cid)) cid c
unfolding deregister_one deregister_id present
one-Leaves db hash cid now c v found bound state named =
    rw named (rw found (locked-Leaves db hash cid now c v found bound state named))

-- If the keys of the CBSD table are distinct and new rows get fresh ones, then a CBSD whose registration
-- request was answered with success has a row, and at any later time a deregistration request for its
-- `cbsdId` on the resulting tables, with the same certificate, is answered with success; afterwards the
-- id has no row, and no grant refers to the row that it had.
pub register-deregister :
    (env : RegistrationChecks) (hash : Option String) (db : Store) (now later : ℕ)
    (req : RegistrationRequest) (r : RegistrationReply)
    → FreshPk env.next_pk
    → Keyed db.cbsds
    → (register_one env hash db now req).0 ≡ some r
    → r.response_code ≡ success
    → (c : Cbsd) × (lock_cbsd_row (register_one env hash db now req).1.cbsds (make_cbsd_id req.body)
        ≡ some c)
      × ((deregister_one hash
            (register_one env hash db now req).1
            later
            (some (make_cbsd_id req.body))).0
          ≡ answer success (some (make_cbsd_id req.body)))
      × Absent
          (deregister_one hash
            (register_one env hash db now req).1
            later
            (some (make_cbsd_id req.body))).1
          (make_cbsd_id req.body)
          c
register-deregister env hash db now later req r fresh v reply code =
    elim (register-Registers env hash db now req v.pks) [
      | inl (bad, same) ↦ absurd (failed _ r reply code bad)
      | inr (merged, c, passed_checks, answered, is_c, enters) ↦
          let cid = make_cbsd_id req.body in
          let self : (cid == cid) ≡ true = (eq_iff cid cid).1 refl in
          let found : lock_cbsd_row (register_one env hash db now req).1.cbsds cid ≡ some c =
            enters cid ∙ ap (λ b. if b then some c else lock_cbsd_row db.cbsds cid) self in
          let gone =
            one-Leaves (register_one env hash db now req).1 hash cid later c
              (register-Keyed env hash fresh db now req v) found is_c.certificate is_c.state
              (not_blank cid (cbsd_id_length req.body)) in
          (c, found, gone.0, gone.1)
    ]
  where
    failed :
        (o : Option RegistrationReply) (r : RegistrationReply)
        → o ≡ some r
        → r.response_code ≡ success
        → Failed o
        → ⊥
    failed none r e h bad = cc
    failed (some x) r e h bad =
        bad (ap (λ (y : RegistrationReply). y.response_code) (some-injective _ _ e) ∙ h)
