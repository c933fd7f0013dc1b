-- ===== src/Relinquishment/Final.antt =====
-- services/relinquishment_service.py: what a relinquishment leaves, and what a second one finds.
use sas_core.Prelude.{
  ℕ, String, Bool, true, false, ◌≡◌, refl, sym, ◌∙◌, ap, ◌≢◌, ◌⊎◌, subst, some-injective, Option,
  none, some, List, Bool-cases, inl, inr, arith,
}
use sas_core.Codes.{success, invalid_param}
use sas_core.Records.{Cbsd, Grant}
use sas_core.Store.{Store}
use sas_core.Auth.{cbsd_certificate_mismatch, lock_cbsd_row, lock_grant_row}
use sas_core.Lifecycle.{
  GrantState, relinquished, relinquish, apply_grant_event, apply_grant_state, grant_transitions,
  TransitionOutcome, sync_flags, grant_state_value,
}
use sas_core.Lifecycle.Applied.{event_cases, apply_state-keys}
use sas_core.Rows.{save_grant, replace_grant, present}
use sas_core.Rows.Saved.{UniquePk, replace-found, lock-replace}
use sas_core.Rows.Replaced.{Replaced, replace-Replaced}
use sas_core.Relinquishment.{
  RelinquishmentRequest, Reply, resp, payload_of, relinquish_reply, relinquish_grant,
  relinquish_found, relinquish_locked, relinquish_row, relinquish_ids, relinquish_one,
}

-- Nothing is written and the code is an error, or the row of a grant that was not terminated is saved in
-- the state RELINQUISHED.
abbrev Stored : Store → Option String → Option String → Option String → Reply × Store → Type 0
Stored db hash a b r =
    ((r.0.response_code ≢ success) × (r.1 ≡ db))
    ⊎ ((cid : String) × (gid : String) × (c : Cbsd) × (g : Grant) × (a ≡ some cid)
        × (b ≡ some gid)
        × (r.0 ≡ resp success (some cid) (some gid))
        × (lock_cbsd_row db.cbsds cid ≡ some c)
        × (cbsd_certificate_mismatch c hash ≡ false)
        × (lock_grant_row db.grants gid cid ≡ some g)
        × (g.terminated ≡ false)
        × (r.1 ≡ save_grant db (apply_grant_state g relinquished)))

save-same :
    (db : Store) (gid cid : String) (g g' : Grant)
    → UniquePk db.grants
    → lock_grant_row db.grants gid cid ≡ some g
    → g' ≡ g
    → save_grant db g' ≡ db
unfolding save_grant
save-same db gid cid g g' u h e =
    ap (λ (gs : List Grant). record db { grants = gs })
      (ap (replace_grant db.grants) e ∙ replace-found db.grants gid cid g u h)

refused_reply :
    (cid gid : String) (o : TransitionOutcome GrantState)
    → o.is_ok ≡ false
    → o.response_code ≢ success
    → (relinquish_reply cid gid o).response_code ≢ success
unfolding relinquish_reply
refused_reply cid gid o h n = rw h n

module _ (db : Store) (hash : Option String) (u : UniquePk db.grants) where
  row-Stored :
      (cid gid : String) (c : Cbsd) (g : Grant) (now : ℕ) (b : Bool)
      → lock_cbsd_row db.cbsds cid ≡ some c
      → cbsd_certificate_mismatch c hash ≡ false
      → lock_grant_row db.grants gid cid ≡ some g
      → g.terminated ≡ b
      → Stored db hash
          (some cid)
          (some gid)
          (relinquish_row db cid gid b (apply_grant_event g relinquish (payload_of cid gid) now))
  unfolding relinquish_row relinquish_reply grant_transitions
  row-Stored cid gid c g now true hc hm hg t = inl (omega arith, refl)
  row-Stored cid gid c g now false hc hm hg t =
      elim (event_cases g relinquish (payload_of cid gid) now) [
        | inl (no_op, code, same) ↦ inl (rw no_op code, save-same db gid cid g _ u hg same)
        | inr (fine, row) ↦
            inr (cid, gid, c, g, refl, refl, rw fine refl, hc, hm, hg, t, ap (save_grant db) row)
      ]

  found-Stored :
      (cid gid : String) (c : Cbsd) (now : ℕ) (o : Option Grant)
      → lock_cbsd_row db.cbsds cid ≡ some c
      → cbsd_certificate_mismatch c hash ≡ false
      → lock_grant_row db.grants gid cid ≡ o
      → Stored db hash (some cid) (some gid) (relinquish_found db cid gid now o)
  unfolding relinquish_found relinquish_grant
  found-Stored cid gid c now none hc hm hg = inl (omega arith, refl)
  found-Stored cid gid c now (some g) hc hm hg =
      row-Stored cid gid c g now g.terminated hc hm hg refl

  locked-Stored :
      (cid gid : String) (now : ℕ) (o : Option Cbsd)
      → lock_cbsd_row db.cbsds cid ≡ o
      → Stored db hash (some cid) (some gid) (relinquish_locked db hash cid gid now o)
  unfolding relinquish_locked
  locked-Stored cid gid now none hc = inl (omega arith, refl)
  locked-Stored cid gid now (some c) hc = elim (Bool-cases (cbsd_certificate_mismatch c hash)) [
    | inl m ↦ inl (rw m (omega arith), rw m refl)
    | inr m ↦
        subst (Stored db hash (some cid) (some gid)) (rw m refl)
          (found-Stored cid gid c now _ hc m refl)
  ]

  ids-Stored : (now : ℕ) (a b : Option String) → Stored db hash a b (relinquish_ids db hash now a b)
  unfolding relinquish_ids
  ids-Stored now (some cid) (some gid) = locked-Stored cid gid now _ refl
  ids-Stored now none b = inl (omega arith, refl)
  ids-Stored now (some cid) none = inl (omega arith, refl)

  relinquish-Stored :
      (now : ℕ) (req : RelinquishmentRequest)
      → Stored db hash (present req.cbsd_id) (present req.grant_id) (relinquish_one hash db now req)
  unfolding relinquish_one
  relinquish-Stored now req = ids-Stored now (present req.cbsd_id) (present req.grant_id)

settled_again :
    (db : Store) (hash : Option String) (later : ℕ) (cid gid : String) (c : Cbsd) (g : Grant)
    → UniquePk db.grants
    → lock_cbsd_row db.cbsds cid ≡ some c
    → cbsd_certificate_mismatch c hash ≡ false
    → lock_grant_row db.grants gid cid ≡ some g
    → relinquish_ids
        (save_grant db (apply_grant_state g relinquished))
        hash
        later
        (some cid)
        (some gid)
      ≡ (resp invalid_param (some cid) none, save_grant db (apply_grant_state g relinquished))
unfolding relinquish_ids relinquish_locked relinquish_found relinquish_grant relinquish_row
    save_grant apply_grant_state sync_flags
settled_again db hash later cid gid c g u hc hm hg =
    let keys = apply_state-keys g relinquished in
    let row : lock_grant_row (replace_grant db.grants (apply_grant_state g relinquished)) gid cid
        ≡ some (apply_grant_state g relinquished) =
      lock-replace db.grants gid cid g (apply_grant_state g relinquished) hg u keys.0 keys.1
        keys.2 in
    rw (hc, hm, row) refl

again_ids :
    (db : Store) (hash : Option String) (now : ℕ) (req : RelinquishmentRequest) (cid gid : String)
    → present req.cbsd_id ≡ some cid
    → present req.grant_id ≡ some gid
    → relinquish_one hash db now req ≡ relinquish_ids db hash now (some cid) (some gid)
unfolding relinquish_one
again_ids db hash now req cid gid pc pg = rw (pc, pg) refl

-- With unique primary keys: once a relinquishment of a grant was answered with success, every later request
-- for that grant with the same certificate is answered 103, echoing the CBSD only, and changes nothing.
pub relinquish_once :
    (db : Store) (hash : Option String) (now later : ℕ) (req again : RelinquishmentRequest)
    (cid gid : String)
    → UniquePk db.grants
    → (relinquish_one hash db now req).0 ≡ resp success (some cid) (some gid)
    → present again.cbsd_id ≡ some cid
    → present again.grant_id ≡ some gid
    → relinquish_one hash (relinquish_one hash db now req).1 later again
      ≡ (resp invalid_param (some cid) none, (relinquish_one hash db now req).1)
relinquish_once db hash now later req again cid gid u h pc pg =
    elim (relinquish-Stored db hash u now req) [
      | inl (no_success, same) ↦ absurd (no_success (ap (λ (r : Reply). r.response_code) h))
      | inr (cid', gid', c, g, named, granted, reply, hc, hm, hg, live, row) ↦
          let is_cid : cid' ≡ cid =
            some-injective _ _ (ap (λ (r : Reply). r.cbsd_id) (sym reply ∙ h)) in
          let is_gid : gid' ≡ gid =
            some-injective _ _ (ap (λ (r : Reply). r.grant_id) (sym reply ∙ h)) in
          let hc' = subst (λ x. lock_cbsd_row db.cbsds x ≡ some c) is_cid hc in
          let hg' =
            subst (λ x. lock_grant_row db.grants gid x ≡ some g) is_cid
              (subst (λ x. lock_grant_row db.grants x cid' ≡ some g) is_gid hg) in
          subst (λ s. relinquish_one hash s later again ≡ (resp invalid_param (some cid) none, s))
            (sym row)
            (again_ids _ hash later again cid gid pc pg
              ∙ settled_again db hash later cid gid c g u hc' hm hg')
    ]

-- The row of a grant that was given back.
abbrev pub given_back : Grant → Grant
given_back g = record g { lifecycle_state = "RELINQUISHED"; terminated = true }

given_back_lem : (g : Grant) → apply_grant_state g relinquished ≡ given_back g
unfolding apply_grant_state sync_flags grant_state_value
given_back_lem g = refl

-- Nothing is written and the code is an error, or the named grant of the named CBSD is the one row that
-- changes.
abbrev pub Settled : Store → Option String → RelinquishmentRequest → Reply × Store → Type 0
Settled db hash req r =
    ((r.0.response_code ≢ success) × (r.1 ≡ db))
    ⊎ ((cid : String) × (gid : String) × (c : Cbsd) × (g : Grant) × (present req.cbsd_id ≡ some cid)
        × (present req.grant_id ≡ some gid)
        × (r.0 ≡ resp success (some cid) (some gid))
        × (lock_cbsd_row db.cbsds cid ≡ some c)
        × (cbsd_certificate_mismatch c hash ≡ false)
        × (lock_grant_row db.grants gid cid ≡ some g)
        × (g.terminated ≡ false)
        × Replaced g (given_back g) db.grants r.1.grants
        × (r.1 ≡ record db { grants = r.1.grants }))

saved-Replaced :
    (db after : Store) (gid cid : String) (g : Grant)
    → UniquePk db.grants
    → lock_grant_row db.grants gid cid ≡ some g
    → after ≡ save_grant db (given_back g)
    → Replaced g (given_back g) db.grants after.grants
      × (after ≡ record db { grants = after.grants })
unfolding save_grant
saved-Replaced db after gid cid g u h e =
    subst
      (λ (s : Store).
        Replaced g (given_back g) db.grants s.grants × (s ≡ record db { grants = s.grants }))
      (sym e) (replace-Replaced db.grants gid cid g (given_back g) h u refl, refl)

-- With unique primary keys, a relinquishment request either leaves every table as it was and answers an
-- error; or it names a CBSD whose certificate matches and a grant of it that is not terminated, answers
-- success for both, and the one change in the tables is that the row of the grant has the state
-- RELINQUISHED and is marked terminated.
pub relinquish-Settled :
    (db : Store) (hash : Option String)
    → UniquePk db.grants
    → (now : ℕ) (req : RelinquishmentRequest) → Settled db hash req (relinquish_one hash db now req)
relinquish-Settled db hash u now req = elim (relinquish-Stored db hash u now req) [
  | inl nothing ↦ inl nothing
  | inr (cid, gid, c, g, pc, pg, reply, hc, hm, hg, live, row) ↦
      let saved = row ∙ ap (save_grant db) (given_back_lem g) in
      let (one, rest) = saved-Replaced db _ gid cid g u hg saved in
      inr (cid, gid, c, g, pc, pg, reply, hc, hm, hg, live, one, rest)
]
