-- ===== src/Registration/Invariant.antt =====
-- services/registration_service.py: the keys of the CBSD table stay unique through a batch, and a batch
-- answers every request unless one raises.
use sas_core.Prelude.{
  ℕ, String, false, ◌≡◌, refl, Option, none, some, List, [], ◌∷◌, ◌++◌, ◌<◌, All, All-append,
  eq_iff, Bool-cases, inl, inr, ◌==◌, string_eq, arith,
}
use sas_core.Records.{Cbsd}
use sas_core.Store.{Store}
use sas_core.Auth.{cbsd_certificate_mismatch, lock_cbsd_row}
use sas_core.Lifecycle.{CbsdState, TransitionOutcome}
use sas_core.Rows.Saved.{UniqueCbsd}
use sas_core.Json.{Fields}
use sas_core.Checked.{Checked, passed, refused, raised}
use sas_core.Registration.Validate.{RegistrationChecks}
use sas_core.Registration.Table.{update_cbsd, new_cbsd, end_grants, save_cbsd, insert_cbsd}
use sas_core.Registration.Keyed.{
  Keyed, UniqueCbsdPk, found-SameId, replace-UniqueCbsd, replace-UniqueCbsdPk,
}
use sas_core.Registration.Written.{pk-update, id-update}
use sas_core.Registration.Handler.{
  RegistrationRequest, RegistrationReply, make_cbsd_id, examine, register_again, register_new,
  register_locked, register_examined, register_one, after_reply, register_all, configure,
  process_registration,
}

-- The database gives a new row a key above all others.
abbrev pub FreshPk : (List Cbsd → ℕ) → Type 0
FreshPk next = (cs : List Cbsd) → All (λ (x : Cbsd). x.pk < next cs) cs

insert-UniqueCbsdPk :
    (cs : List Cbsd) (c : Cbsd)
    → All (λ (x : Cbsd). x.pk < c.pk) cs
    → UniqueCbsdPk cs
    → UniqueCbsdPk (cs ++ (c ∷ []))
insert-UniqueCbsdPk [] c a u = (tt, tt)
insert-UniqueCbsdPk (x ∷ xs) c a u =
    (All-append _ xs (c ∷ []) u.0 (ground arith, tt), insert-UniqueCbsdPk xs c a.1 u.1)

absent-head :
    (x : Cbsd) (xs : List Cbsd) (cid : String)
    → lock_cbsd_row (x ∷ xs) cid ≡ none
    → ((x.cbsd_id == cid) ≡ false) × (lock_cbsd_row xs cid ≡ none)
unfolding lock_cbsd_row
absent-head x xs cid h = ground arith

flip : (a b : String) → (a == b) ≡ false → (b == a) ≡ false
flip a b h = ground (arith, eq_iff a b, eq_iff b a)

insert-UniqueCbsd :
    (cs : List Cbsd) (c : Cbsd)
    → lock_cbsd_row cs c.cbsd_id ≡ none
    → UniqueCbsd cs
    → UniqueCbsd (cs ++ (c ∷ []))
insert-UniqueCbsd [] c h u = (tt, tt)
insert-UniqueCbsd (x ∷ xs) c h u =
    let (apart, rest) = absent-head x xs c.cbsd_id h in
    (
      All-append _ xs (c ∷ []) u.0 (flip x.cbsd_id c.cbsd_id apart, tt),
      insert-UniqueCbsd xs c rest u.1,
    )

module _ (env : RegistrationChecks) (hash : Option String) (fresh : FreshPk env.next_pk) where
  new-Keyed :
      (db : Store) (cid : String) (req : RegistrationRequest) (merged : Fields)
      (o : TransitionOutcome CbsdState)
      → lock_cbsd_row db.cbsds cid ≡ none
      → Keyed db.cbsds
      → Keyed (register_new env db hash cid req merged o).1.cbsds
  unfolding register_new insert_cbsd new_cbsd
  new-Keyed db cid req merged o free v = elim (Bool-cases o.is_ok) [
    | inr f ↦ rw f v
    | inl t ↦ rw t (elim (Bool-cases req.race_lost) [
      | inl lost ↦ rw lost v
      | inr won ↦
          let c = new_cbsd (env.next_pk db.cbsds) cid hash req.body merged in
          rw won (record {
            ids = insert-UniqueCbsd db.cbsds c free v.ids;
            pks = insert-UniqueCbsdPk db.cbsds c (fresh db.cbsds) v.pks;
          })
    ])
  ]

  again-Keyed :
      (db : Store) (cid : String) (now : ℕ) (request merged : Fields) (c : Cbsd)
      (o : TransitionOutcome CbsdState)
      → lock_cbsd_row db.cbsds cid ≡ some c
      → Keyed db.cbsds
      → Keyed (register_again db hash cid now request merged c o).1.cbsds
  unfolding register_again end_grants save_cbsd
  again-Keyed db cid now request merged c o found v = elim (Bool-cases o.is_ok) [
    | inr f ↦ rw f v
    | inl t ↦
        let c' = update_cbsd c hash request merged in
        let same =
          found-SameId db.cbsds cid c c' v.pks found (pk-update c hash request merged)
            (id-update c hash request merged) in
        rw t (record {
          ids = replace-UniqueCbsd db.cbsds c' same v.ids;
          pks = replace-UniqueCbsdPk db.cbsds c' v.pks;
        })
  ]

  locked-Keyed :
      (db : Store) (cid : String) (now : ℕ) (req : RegistrationRequest) (merged : Fields)
      (o : Option Cbsd)
      → lock_cbsd_row db.cbsds cid ≡ o
      → Keyed db.cbsds
      → Keyed (register_locked env db hash cid now req merged o).1.cbsds
  unfolding register_locked
  locked-Keyed db cid now req merged none free v = new-Keyed db cid req merged _ free v
  locked-Keyed db cid now req merged (some c) found v =
      elim (Bool-cases (cbsd_certificate_mismatch c hash)) [
        | inl m ↦ rw m v
        | inr m ↦ rw m (again-Keyed db cid now req.body merged c _ found v)
      ]

  examined-Keyed :
      (db : Store) (now : ℕ) (req : RegistrationRequest) (m : Checked Fields)
      → Keyed db.cbsds
      → Keyed (register_examined env db hash now req m).1.cbsds
  unfolding register_examined
  examined-Keyed db now req raised v = v
  examined-Keyed db now req (refused code) v = v
  examined-Keyed db now req (passed merged) v =
      locked-Keyed db (make_cbsd_id req.body) now req merged _ refl v

  pub register-Keyed :
      (db : Store) (now : ℕ) (req : RegistrationRequest)
      → Keyed db.cbsds
      → Keyed (register_one env hash db now req).1.cbsds
  unfolding register_one
  register-Keyed db now req v = examined-Keyed db now req (examine env db now req.body) v

  after-Keyed :
      (first : Option RegistrationReply) (later : Option (List RegistrationReply) × Store)
      (db : Store)
      → Keyed db.cbsds
      → Keyed later.1.cbsds
      → Keyed (after_reply first later db).1.cbsds
  after-Keyed none later db v w = v
  after-Keyed (some r) (none, db') db v w = w
  after-Keyed (some r) (some rs, db') db v w = w

  all-Keyed :
      (db : Store) (reqs : List (ℕ × RegistrationRequest))
      → Keyed db.cbsds
      → Keyed (register_all env hash db reqs).1.cbsds
  unfolding register_all
  all-Keyed db [] v = v
  all-Keyed db ((now, req) ∷ rest) v =
      let first = register_one env hash db now req in
      let kept = register-Keyed db now req v in
      after-Keyed first.0 (register_all env hash first.1 rest) first.1 kept
        (all-Keyed first.1 rest kept)

  configure-Keyed :
      (reqs : List (ℕ × RegistrationRequest)) (r : Option (List RegistrationReply) × Store)
      → Keyed r.1.cbsds
      → Keyed (configure reqs r).1.cbsds
  unfolding configure
  configure-Keyed reqs (none, db) v = v
  configure-Keyed reqs (some rs, db) v = v

  -- If the database gives new rows fresh primary keys, a batch of registration requests, also one that
  -- an exception ends, keeps the primary keys and the `cbsdId`s of the CBSD table distinct.
  pub process_registration-Keyed :
      (db : Store) (reqs : List (ℕ × RegistrationRequest))
      → Keyed db.cbsds
      → Keyed (process_registration env db hash reqs).1.cbsds
  unfolding process_registration
  process_registration-Keyed db reqs v =
      configure-Keyed reqs (register_all env hash db reqs) (all-Keyed db reqs v)
