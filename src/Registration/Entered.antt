-- ===== src/Registration/Entered.antt =====
-- services/registration_service.py: what one registration request does to the table of CBSDs, seen as a
-- map from `cbsdId` to rows.
use sas_core.Prelude.{
  ℕ, String, false, ◌≡◌, ◌≢◌, refl, ap, Option, none, some, Bool-cases, inl, inr, ◌⊎◌,
  if◌then◌else◌, ◌==◌, string_eq, arith,
}
use sas_core.Codes.{success}
use sas_core.Records.{Cbsd}
use sas_core.Store.{Store}
use sas_core.Auth.{cbsd_certificate_mismatch, lock_cbsd_row}
use sas_core.Lifecycle.{
  CbsdState, register, reregister, unregistered, TransitionOutcome, resolve_cbsd_state,
}
use sas_core.Json.{Fields}
use sas_core.Checked.{Checked, passed, refused, raised}
use sas_core.Checked.Errors.{ErrorOnly, of_refused}
use sas_core.Registration.Validate.{RegistrationChecks}
use sas_core.Registration.Table.{update_cbsd, new_cbsd, end_grants, save_cbsd, insert_cbsd}
use sas_core.Registration.Keyed.{UniqueCbsdPk, lock_cbsd-key}
use sas_core.Registration.Directory.{lock-replace_cbsd, lock-insert_cbsd}
use sas_core.Registration.Handler.{
  RegistrationRequest, RegistrationReply, registered_reply, make_cbsd_id, examine,
  registration_payload, Answer, register_again, register_new, register_locked, register_examined,
  register_one,
}
use sas_core.Registration.Errors.{examine-ErrorOnly}
use sas_core.Registration.Written.{
  IsRegistered, refused_code, new-IsRegistered, update-IsRegistered, pk-update,
}

-- No reply, since the request raised, or an error code.
abbrev pub Failed : Option RegistrationReply → Type 0
Failed none = Unit
Failed (some r) = r.response_code ≢ success

-- The table maps `cid` to the row, and every other id as before.
abbrev pub Enters : Store → String → Cbsd → Store → Type 0
Enters db cid c db' =
    (k : String)
    → lock_cbsd_row db'.cbsds k ≡ (if cid == k then some c else lock_cbsd_row db.cbsds k)

-- What may come of a request whose merged parameters were registered_reply.
abbrev Decided : Store → String → Option String → Fields → Answer → Type 0
Decided db cid hash merged a =
    ((a.0.response_code ≢ success) × (a.1 ≡ db))
    ⊎ ((c : Cbsd) × (a.0 ≡ registered_reply cid)
        × IsRegistered cid hash merged c
        × Enters db cid c a.1)

module _ (env : RegistrationChecks) (hash : Option String) (db : Store) where
  new-Decided :
      (cid : String) (req : RegistrationRequest) (merged : Fields) (o : TransitionOutcome CbsdState)
      → (o.is_ok ≡ false → o.response_code ≢ success)
      → lock_cbsd_row db.cbsds cid ≡ none
      → Decided db cid hash merged (register_new env db hash cid req merged o)
  unfolding register_new insert_cbsd
  new-Decided cid req merged o code free = elim (Bool-cases o.is_ok) [
    | inr f ↦ rw f (inl (code f, refl))
    | inl t ↦ rw t (elim (Bool-cases req.race_lost) [
      | inl lost ↦ rw lost (inl (omega arith, refl))
      | inr won ↦
          let c = new_cbsd (env.next_pk db.cbsds) cid hash req.body merged in
          rw won (
            inr (
              c,
              refl,
              new-IsRegistered (env.next_pk db.cbsds) cid hash req.body merged,
              λ k.
                  lock-insert_cbsd db.cbsds cid c k free
                    (new-IsRegistered (env.next_pk db.cbsds) cid hash req.body merged).key,
            ))
    ])
  ]

  again-Decided :
      (cid : String) (now : ℕ) (request merged : Fields) (c : Cbsd)
      (o : TransitionOutcome CbsdState)
      → (o.is_ok ≡ false → o.response_code ≢ success)
      → UniqueCbsdPk db.cbsds
      → lock_cbsd_row db.cbsds cid ≡ some c
      → cbsd_certificate_mismatch c hash ≡ false
      → Decided db cid hash merged (register_again db hash cid now request merged c o)
  unfolding register_again end_grants save_cbsd
  again-Decided cid now request merged c o code pks found bound = elim (Bool-cases o.is_ok) [
    | inr f ↦ rw f (inl (code f, refl))
    | inl t ↦
        let is_c =
          update-IsRegistered cid hash c request merged (lock_cbsd-key db.cbsds cid c found)
            bound in
        rw t (
          inr (
            update_cbsd c hash request merged,
            refl,
            is_c,
            λ k.
                lock-replace_cbsd db.cbsds cid c (update_cbsd c hash request merged) k found pks
                  (pk-update c hash request merged) is_c.key,
          ))
  ]

  locked-Decided :
      (cid : String) (now : ℕ) (req : RegistrationRequest) (merged : Fields) (o : Option Cbsd)
      → UniqueCbsdPk db.cbsds
      → lock_cbsd_row db.cbsds cid ≡ o
      → Decided db cid hash merged (register_locked env db hash cid now req merged o)
  unfolding register_locked
  locked-Decided cid now req merged none pks free =
      new-Decided cid req merged _
        (refused_code register unregistered (registration_payload req.body)) free
  locked-Decided cid now req merged (some c) pks found =
      elim (Bool-cases (cbsd_certificate_mismatch c hash)) [
        | inl m ↦ rw m (inl (omega arith, refl))
        | inr m ↦ rw m (
            again-Decided cid now req.body merged c _
              (refused_code reregister (resolve_cbsd_state (some c))
                (registration_payload req.body))
              pks found m)
      ]

  -- What one request does.
  abbrev pub Registers : ℕ → RegistrationRequest → Option RegistrationReply × Store → Type 0
  Registers now req r =
      (Failed r.0 × (r.1 ≡ db))
      ⊎ ((merged : Fields) × (c : Cbsd) × (examine env db now req.body ≡ passed merged)
          × (r.0 ≡ some (registered_reply (make_cbsd_id req.body)))
          × IsRegistered (make_cbsd_id req.body) hash merged c
          × Enters db (make_cbsd_id req.body) c r.1)

  examined-Registers :
      (now : ℕ) (req : RegistrationRequest) (m : Checked Fields)
      → UniqueCbsdPk db.cbsds
      → ErrorOnly m
      → examine env db now req.body ≡ m
      → Registers now req (register_examined env db hash now req m)
  unfolding register_examined
  examined-Registers now req raised pks h e = inl (tt, refl)
  examined-Registers now req (refused code) pks (of_refused _ bad) e = inl (bad, refl)
  examined-Registers now req (passed merged) pks h e =
      elim (locked-Decided (make_cbsd_id req.body) now req merged
        (lock_cbsd_row db.cbsds (make_cbsd_id req.body)) pks refl) [
          | inl (bad, same) ↦ inl (bad, same)
          | inr (c, reply, is_c, enters) ↦ inr (merged, c, e, ap some reply, is_c, enters)
        ]

  -- With distinct primary keys, a registration request either leaves every table as it was and is
  -- answered with an error code or not at all, or its parameters pass every check, it is answered with
  -- success and its `cbsdId`, and the table of CBSDs changes as a map at that id only: it then holds a
  -- REGISTERED row with the merged parameters, bound so that the certificate of the request matches.
  pub register-Registers :
      (now : ℕ) (req : RegistrationRequest)
      → UniqueCbsdPk db.cbsds
      → Registers now req (register_one env hash db now req)
  unfolding register_one
  register-Registers now req pks =
      examined-Registers now req _ pks (examine-ErrorOnly env db now req.body) refl
