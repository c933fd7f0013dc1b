-- ===== src/Registration/Ended.antt =====
-- services/registration_service.py: `_terminate_grants` leaves no live grant of the CBSD.
use sas_core.Prelude.{
  ℕ, String, ◌≡◌, refl, ◌∙◌, ap, Option, none, some, none-ne-some, some-injective, eq_iff, List, [],
  ◌∷◌, map, All, All-mono, Bool-cases, inl, inr, ◌==◌, string_eq,
}
use sas_core.Records.{Cbsd, Grant}
use sas_core.Store.{Store}
use sas_core.Auth.{lock_cbsd_row, cbsd_certificate_mismatch}
use sas_core.Lifecycle.{CbsdState, TransitionOutcome}
use sas_core.Json.{Fields}
use sas_core.Checked.{Checked, passed, refused, raised}
use sas_core.Registration.Validate.{RegistrationChecks}
use sas_core.Registration.Table.{end_grant, end_grants, save_cbsd, insert_cbsd}
use sas_core.Registration.Handler.{
  RegistrationRequest, RegistrationReply, make_cbsd_id, register_again, register_new,
  register_locked, register_examined, register_one,
}
use sas_core.Registration.Quiet.{Quiet, IsStored, end_grant-Quiet}

All-map {ℓ κ} :
    (P : Grant → Type ℓ) (Q : Grant → Type κ) (f : Grant → Grant) (gs : List Grant)
    → ((g : Grant) → P g → Q (f g))
    → All P gs
    → All Q (map f gs)
All-map P Q f [] h a = tt
All-map P Q f (g ∷ gs) h a = (h g a.0, All-map P Q f gs h a.1)

-- A grant whose CBSD has a row is none of a CBSD without one.
owned_elsewhere :
    (db : Store) (cid : String) (now : ℕ) (g : Grant)
    → lock_cbsd_row db.cbsds cid ≡ none
    → IsStored db g
    → Quiet cid now g
owned_elsewhere db cid now g free v = elim (Bool-cases (g.cbsd_id == cid)) [
  | inl e ↦
      let same : g.cbsd_id ≡ cid = (eq_iff g.cbsd_id cid).0 e in
      absurd (v.owned (ap (lock_cbsd_row db.cbsds) same ∙ free))
  | inr e ↦ inl e
]

module _ (env : RegistrationChecks) (hash : Option String) (db : Store) (now : ℕ)
    (stored : All (IsStored db) db.grants) where
  new-Quiet :
      (cid : String) (req : RegistrationRequest) (merged : Fields) (o : TransitionOutcome CbsdState)
      → lock_cbsd_row db.cbsds cid ≡ none
      → All (Quiet cid now) (register_new env db hash cid req merged o).1.grants
  unfolding register_new insert_cbsd
  new-Quiet cid req merged o free =
      let quiet =
        All-mono (IsStored db) (Quiet cid now) db.grants
          (λ g v. owned_elsewhere db cid now g free v) stored in
      elim (Bool-cases o.is_ok) [
        | inr f ↦ rw f quiet
        | inl t ↦ rw t (elim (Bool-cases req.race_lost) [ inl l ↦ rw l quiet | inr w ↦ rw w quiet ])
      ]

  again-Quiet :
      (cid : String) (request merged : Fields) (c : Cbsd) (o : TransitionOutcome CbsdState)
      → (register_again db hash cid now request merged c o).0.cbsd_id ≡ some cid
      → All (Quiet cid now) (register_again db hash cid now request merged c o).1.grants
  unfolding register_again end_grants save_cbsd
  again-Quiet cid request merged c o answered = elim (Bool-cases o.is_ok) [
    | inr f ↦ absurd (none-ne-some _ (rw f at answered))
    | inl t ↦ rw t (
        All-map (IsStored db) (Quiet cid now) (end_grant cid now) db.grants
          (λ g v. end_grant-Quiet db cid now g v) stored)
  ]

  locked-Quiet :
      (cid : String) (req : RegistrationRequest) (merged : Fields) (o : Option Cbsd)
      → lock_cbsd_row db.cbsds cid ≡ o
      → (register_locked env db hash cid now req merged o).0.cbsd_id ≡ some cid
      → All (Quiet cid now) (register_locked env db hash cid now req merged o).1.grants
  unfolding register_locked
  locked-Quiet cid req merged none free answered = new-Quiet cid req merged _ free
  locked-Quiet cid req merged (some c) found answered =
      elim (Bool-cases (cbsd_certificate_mismatch c hash)) [
        | inl m ↦ absurd (none-ne-some _ (rw m at answered))
        | inr m ↦ rw m (again-Quiet cid req.body merged c _ (rw m at answered))
      ]

  examined-Quiet :
      (req : RegistrationRequest) (m : Checked Fields) (r : RegistrationReply)
      → (register_examined env db hash now req m).0 ≡ some r
      → r.cbsd_id ≡ some (make_cbsd_id req.body)
      → All (Quiet (make_cbsd_id req.body) now) (register_examined env db hash now req m).1.grants
  unfolding register_examined
  examined-Quiet req raised r e answered = absurd (none-ne-some _ e)
  examined-Quiet req (refused code) r e answered = cc
  examined-Quiet req (passed merged) r e answered =
      let same = some-injective _ _ e in
      locked-Quiet (make_cbsd_id req.body) req merged _ refl
        (ap (λ (x : RegistrationReply). x.cbsd_id) same ∙ answered)

  -- If every stored grant has names, flags in step with its state and a row for its CBSD, then after a
  -- registration request that is answered with a `cbsdId`, whether the CBSD is new or registers again,
  -- no grant of that CBSD is in a live state.
  pub register-Quiet :
      (req : RegistrationRequest) (r : RegistrationReply)
      → (register_one env hash db now req).0 ≡ some r
      → r.cbsd_id ≡ some (make_cbsd_id req.body)
      → All (Quiet (make_cbsd_id req.body) now) (register_one env hash db now req).1.grants
  unfolding register_one
  register-Quiet req r e answered = examined-Quiet req _ r e answered
