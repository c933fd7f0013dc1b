-- ===== src/Deregistration/Gone.antt =====
-- services/deregistration_service.py: what a deregistration leaves.
use sas_core.Prelude.{
  ℕ, String, Bool, true, false, not, ◌≡◌, ◌≢◌, refl, Option, none, some, some-injective,
  none-ne-some, subst, ◌==◌, All, nat_beq, Bool-cases, inl, inr, ◌⊎◌, string_eq, arith,
}
use sas_core.Codes.{success}
use sas_core.Records.{Cbsd, Grant}
use sas_core.Store.{Store}
use sas_core.Auth.{cbsd_certificate_mismatch, lock_cbsd_row}
use sas_core.Lifecycle.{
  CbsdState, deregister, cbsd_transitions, TransitionOutcome, evaluate_cbsd_transition,
  resolve_cbsd_state, check_cbsd, Payload,
}
use sas_core.Rows.{delete_cbsd, present}
use sas_core.Rows.Saved.{UniqueCbsd, lock_cbsd-deleted, All-keep}
use sas_core.Deregistration.Cascade.{Departure, delete-Departure}
use sas_core.Deregistration.{
  DeregistrationReply, answer, terminate_grants, deregister_cbsd, deregister_locked, deregister_id,
  deregister_one,
}

-- The CBSD is gone, with the grants that refer to its row.
abbrev pub Absent : Store → String → Cbsd → Type 0
Absent db cid c =
    (lock_cbsd_row db.cbsds cid ≡ none)
    × All (λ (g : Grant). nat_beq g.cbsd_pk c.pk ≡ false) db.grants

-- Nothing is written and the code is an error, or the named CBSD was removed.
abbrev pub Left : Store → Option String → Option String → ℕ → DeregistrationReply × Store → Type 0
Left db hash id now r =
    ((r.0.response_code ≢ success) × (r.1 ≡ db))
    ⊎ ((cid : String) × (c : Cbsd) × (present id ≡ some cid)
        × (r.0 ≡ answer success (some cid))
        × (lock_cbsd_row db.cbsds cid ≡ some c)
        × (cbsd_certificate_mismatch c hash ≡ false)
        × Absent r.1 cid c
        × Departure db r.1 c cid now)

not-true : (b : Bool) → not b ≡ true → b ≡ false
not-true b h = ground arith

pub deleted-Absent :
    (db : Store) (cid : String) (now : ℕ) (c : Cbsd)
    → UniqueCbsd db.cbsds
    → lock_cbsd_row db.cbsds cid ≡ some c
    → Absent (delete_cbsd (terminate_grants db cid now) c) cid c
unfolding delete_cbsd terminate_grants
deleted-Absent db cid now c u h = (
  lock_cbsd-deleted db.cbsds cid c h u,
  All-keep (λ (g : Grant). nat_beq g.cbsd_pk c.pk ≡ false) _ _
      (λ g k. not-true (nat_beq g.cbsd_pk c.pk) k),
)

refused_code :
    (s : CbsdState) (p : Payload)
    → (evaluate_cbsd_transition deregister s p).is_ok ≡ false
    → (evaluate_cbsd_transition deregister s p).response_code ≢ success
unfolding evaluate_cbsd_transition check_cbsd cbsd_transitions
refused_code s p h = ground arith

present-some : (id : Option String) (cid : String) → present id ≡ some cid → (cid == "") ≡ false
unfolding present
present-some none cid h = absurd (none-ne-some _ h)
present-some (some s) cid h = elim (Bool-cases (s == "")) [
  | inl e ↦ absurd (none-ne-some cid (rw e at h))
  | inr e ↦ subst (λ (x : String). (x == "") ≡ false) (some-injective _ _ (rw e at h)) e
]

module _ (db : Store) (hash : Option String) (u : UniqueCbsd db.cbsds) (id : Option String)
    (now : ℕ) where
  cbsd-Left :
      (cid : String) (c : Cbsd) (o : TransitionOutcome CbsdState)
      → (o.is_ok ≡ false → o.response_code ≢ success)
      → present id ≡ some cid
      → lock_cbsd_row db.cbsds cid ≡ some c
      → cbsd_certificate_mismatch c hash ≡ false
      → Left db hash id now (deregister_cbsd db cid now c o)
  unfolding deregister_cbsd
  cbsd-Left cid c o refused hp hc hm = elim (Bool-cases o.is_ok) [
    | inl t ↦ rw t (
        inr (
          cid,
          c,
          hp,
          refl,
          hc,
          hm,
          deleted-Absent db cid now c u hc,
          delete-Departure db cid now c (present-some id cid hp),
        ))
    | inr f ↦ inl (rw f (refused f), rw f refl)
  ]

  locked-Left :
      (cid : String) (o : Option Cbsd)
      → present id ≡ some cid
      → lock_cbsd_row db.cbsds cid ≡ o
      → Left db hash id now (deregister_locked db hash cid now o)
  unfolding deregister_locked
  locked-Left cid none hp hc = inl (omega arith, refl)
  locked-Left cid (some c) hp hc = elim (Bool-cases (cbsd_certificate_mismatch c hash)) [
    | inl m ↦ inl (rw m (omega arith), rw m refl)
    | inr m ↦ rw m (cbsd-Left cid c _ (refused_code (resolve_cbsd_state (some c)) _) hp hc m)
  ]

  id-Left : (o : Option String) → present id ≡ o → Left db hash id now (deregister_id db hash now o)
  unfolding deregister_id
  id-Left none hp = inl (omega arith, refl)
  id-Left (some cid) hp = locked-Left cid _ hp refl

-- With unique identifiers, a deregistration request either leaves every table as it was and answers an
-- error, or names a registered CBSD whose certificate matches and answers success for it. Afterwards
-- that CBSD is not found by its identifier and no grant refers to its row; the tables of CBSDs and
-- grants have lost just the rows with its key; a grant that is left and carries its identifier, and has one of
-- its own, is in no live state, under its own keys; and nothing else has changed.
pub deregister-Left :
    (db : Store) (hash : Option String)
    → UniqueCbsd db.cbsds
    → (now : ℕ) (id : Option String) → Left db hash id now (deregister_one hash db now id)
unfolding deregister_one
deregister-Left db hash u now id = id-Left db hash u id now (present id) refl
