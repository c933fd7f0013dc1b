-- ===== src/Cpas/Applied.antt =====
-- services/cpas_service.py: whatever is decided, CPAS takes from the grants and gives nothing.
use sas_core.Prelude.{
  ℕ, suc, String, Bool, true, false, ◌≡◌, refl, sym, ◌∙◌, subst, Option, none, some, List, [], ◌∷◌,
  if◌then◌else◌, Bool-cases, inl, inr, ◌==◌, string_eq,
}
use sas_core.Prelude.Int.{ℤ}
use sas_core.Records.{Grant}
use sas_core.Store.{Store}
use sas_core.Lifecycle.{
  suspended, terminated, suspend, terminate, Payload, resolve_grant_state, grant_transitions,
  evaluate_grant_transition, apply_grant_event, TransitionOutcome, GrantState, GrantEvent,
}
use sas_core.Lifecycle.Applied.{event_cases}
use sas_core.Rows.{save_grant}
use sas_core.Rows.Saved.{UniquePk}
use sas_core.Cpas.Decisions.{CpasDecision}
use sas_core.Cpas.Apply.{
  find_decided, is_peer_id, Progress, lowers, reduce_power, commit_event, decision_payload,
  apply_action, action_of, apply_to, apply_decision, apply_decisions, apply_cpas_decisions,
}
use sas_core.Cpas.Lowered.{
  IsTamer, AllTamer, AllTamer-refl, AllTamer-trans, AllTamer-UniquePk, replace-AllTamer,
}
use sas_core.Cpas.Found.{IsIn, found-IsIn, tames}
use sas_core.Cpas.Tamed.{power-IsTamer, state-IsTamer, suspend_live, terminate_live}

event_ok :
    (g : Grant) (e : GrantEvent) (p : Payload) (now : ℕ)
    → (apply_grant_event g e p now).0.is_ok
      ≡ (evaluate_grant_transition e (resolve_grant_state g now) p).is_ok
unfolding apply_grant_event
event_ok g e p now = refl

module _ (at now : ℕ) (g : Grant) (p : Payload) (running : g.terminated ≡ false) where
  suspend-IsTamer :
      (apply_grant_event g suspend p now).0.is_ok ≡ true
      → IsTamer at (apply_grant_event g suspend p now).1 g
  unfolding grant_transitions
  suspend-IsTamer h = elim (event_cases g suspend p now) [
    | inl (no_op, code, same) ↦ cc
    | inr (fine, same) ↦
        subst (λ x. IsTamer at x g) (sym same)
          (state-IsTamer at now g suspended (inl refl)
            (suspend_live (resolve_grant_state g now) p (sym (event_ok g suspend p now) ∙ h))
            running)
  ]

  terminate-IsTamer :
      (apply_grant_event g terminate p now).0.is_ok ≡ true
      → IsTamer at (apply_grant_event g terminate p now).1 g
  unfolding grant_transitions
  terminate-IsTamer h = elim (event_cases g terminate p now) [
    | inl (no_op, code, same) ↦ cc
    | inr (fine, same) ↦
        subst (λ x. IsTamer at x g) (sym same)
          (state-IsTamer at now g terminated (inr refl)
            (terminate_live (resolve_grant_state g now) p (sym (event_ok g terminate p now) ∙ h))
            running)
  ]

module _ (at : ℕ) where
  -- The grants of one stage of the loop, compared with those of an earlier stage.
  abbrev Tamed : Progress → Progress → Type 0
  Tamed q p = AllTamer at q.0.grants p.0.grants

  saved-Tamed :
      (p : Progress) (g g' : Grant) (n : ℕ)
      → IsIn g p.0.grants
      → UniquePk p.0.grants
      → IsTamer at g' g
      → Tamed (save_grant p.0 g', n) p
  unfolding save_grant
  saved-Tamed p g g' n i u h = replace-AllTamer at p.0.grants g' (tames at g' i u h)

  module _ (p : Progress) (u : UniquePk p.0.grants) where
    reduce-Tamed :
        (g : Grant) (o : Option ℤ)
        → IsIn g p.0.grants
        → g.terminated ≡ false
        → Tamed (reduce_power p g o) p
    unfolding reduce_power
    reduce-Tamed g none i t = AllTamer-refl at p.0.grants
    reduce-Tamed g (some auth) i t = elim (Bool-cases (lowers g.max_eirp auth)) [
      | inl l ↦ rw l (saved-Tamed p g _ (suc p.1) i u (power-IsTamer at g auth l t))
      | inr n ↦ rw n (AllTamer-refl at p.0.grants)
    ]

    commit-Tamed :
        (g : Grant) (r : TransitionOutcome GrantState × Grant)
        → IsIn g p.0.grants
        → (r.0.is_ok ≡ true → IsTamer at r.1 g)
        → Tamed (commit_event p r) p
    unfolding commit_event
    commit-Tamed g r i h = elim (Bool-cases r.0.is_ok) [
      | inl t ↦ rw t (saved-Tamed p g r.1 (suc p.1) i u (h t))
      | inr f ↦ rw f (AllTamer-refl at p.0.grants)
    ]

    action-Tamed :
        (g : Grant) (d : CpasDecision) (action : String) (now : ℕ)
        → IsIn g p.0.grants
        → g.terminated ≡ false
        → Tamed (apply_action p g d action now) p
    unfolding apply_action
    action-Tamed g d action now i t = elim (Bool-cases (action == "reduce_power")) [
      | inl a ↦ rw a (reduce-Tamed g d.authorized_eirp i t)
      | inr a ↦ elim (Bool-cases (action == "suspend")) [
        | inl b ↦ rw (a, b) (commit-Tamed g _ i (suspend-IsTamer at now g (decision_payload g d) t))
        | inr b ↦ elim (Bool-cases (action == "terminate")) [
          | inl c ↦
              rw (a, b, c)
                (commit-Tamed g _ i (terminate-IsTamer at now g (decision_payload g d) t))
          | inr c ↦ rw (a, b, c) (AllTamer-refl at p.0.grants)
        ]
      ]
    ]

    to-Tamed :
        (d : CpasDecision) (now : ℕ) (o : Option Grant)
        → ((g : Grant) → o ≡ some g → IsIn g p.0.grants)
        → Tamed (apply_to p d now o) p
    unfolding apply_to
    to-Tamed d now none i = AllTamer-refl at p.0.grants
    to-Tamed d now (some g) i = by_flag g.terminated refl
      where
        by_flag :
            (b : Bool)
            → g.terminated ≡ b
            → Tamed
                (if b
                  then p
                  else if is_peer_id d.grant_id
                  then p
                  else apply_action p g d (action_of d) now)
                p
        by_flag true t = AllTamer-refl at p.0.grants
        by_flag false t = elim (Bool-cases (is_peer_id d.grant_id)) [
          | inl q ↦ rw q (AllTamer-refl at p.0.grants)
          | inr q ↦ rw q (action-Tamed g d (action_of d) now (i g refl) t)
        ]

    decision-Tamed :
        (d : CpasDecision) (now : ℕ) (o : Option ℕ) → Tamed (apply_decision p d now o) p
    unfolding apply_decision
    decision-Tamed d now none = AllTamer-refl at p.0.grants
    decision-Tamed d now (some pk) =
        to-Tamed d now (find_decided p.0.grants pk d) (λ g e. found-IsIn p.0.grants pk d g e)

  all-Tamed :
      (p : Progress) (ds : List (ℕ × CpasDecision))
      → UniquePk p.0.grants
      → Tamed (apply_decisions p ds) p
  unfolding apply_decisions
  all-Tamed p [] u = AllTamer-refl at p.0.grants
  all-Tamed p ((now, d) ∷ ds) u =
      let first = decision-Tamed p u d now d.grant_pk in
      let q = apply_decision p d now d.grant_pk in
      AllTamer-trans at (all-Tamed q ds (AllTamer-UniquePk at first u)) first

  -- If the primary keys of the grants are distinct, then whatever decisions are applied, the table of
  -- grants keeps its rows in their order, each with its keys, its frequencies and its end; no row gets a
  -- higher power; none is live, at any given time, that would not have been; and a row that was marked
  -- terminated is as it was.
  pub apply_cpas-AllTamer :
      (db : Store) (ds : List (ℕ × CpasDecision))
      → UniquePk db.grants
      → AllTamer at (apply_cpas_decisions db ds).0.grants db.grants
  unfolding apply_cpas_decisions
  apply_cpas-AllTamer db ds u = all-Tamed (db, 0) ds u
