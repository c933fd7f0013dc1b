-- ===== src/Lifecycle/Flags.antt =====
-- services/lifecycle.py: the legacy flags `terminated` and `authorized` follow the column.
use sas_core.Prelude.{
  ℕ, true, false, ◌≡◌, ◌≢◌, refl, ◌∙◌, ap, some, arith, Option-cases, inl, inr, Bool-cases,
}
use sas_core.Records.{Grant}
use sas_core.Lifecycle.States.{
  GrantState, requested, granted, authorized, GrantEvent, grant_state_of,
}
use sas_core.Lifecycle.Resolve.{is_terminal, resolve_grant_state}
use sas_core.Lifecycle.Transition.{
  Payload, TransitionOutcome, check_grant, evaluate_grant_transition, apply_grant_state,
  commit_outcome, apply_grant_event,
}

-- Where the column names a state, `terminated` is set exactly in the terminal ones, and
-- `authorized` is set in AUTHORIZED and clear in GRANTED.
pub record InSync (g : Grant) : Type 0 where
  pub ended :
      (s : GrantState) → grant_state_of g.lifecycle_state ≡ some s → g.terminated ≡ is_terminal s
  pub on : grant_state_of g.lifecycle_state ≡ some authorized → g.authorized ≡ true
  pub off : grant_state_of g.lifecycle_state ≡ some granted → g.authorized ≡ false

target_not_requested :
    (e : GrantEvent) (s : GrantState) (p : Payload)
    → (evaluate_grant_transition e s p).to_state ≢ some requested
unfolding evaluate_grant_transition check_grant
target_not_requested e s p h = ground arith

apply_state-InSync : (g : Grant) (t : GrantState) → t ≢ requested → InSync (apply_grant_state g t)
unfolding apply_grant_state grant_state_of is_terminal
apply_state-InSync g requested h = absurd (h refl)
apply_state-InSync g _ h = record {
  ended = λ s e. ground arith;
  on = λ e. ground arith;
  off = λ e. ground arith;
}

commit-InSync :
    (g : Grant) (o : TransitionOutcome GrantState)
    → o.to_state ≢ some requested
    → InSync g
    → InSync (commit_outcome g o)
unfolding commit_outcome
commit-InSync g o h v = elim (Bool-cases o.is_ok) [
  | inr refused ↦ rw refused v
  | inl fine ↦ rw fine (elim (Option-cases o.to_state) [
    | inl nowhere ↦ rw nowhere v
    | inr (t, to) ↦ rw to (apply_state-InSync g t (λ e. h (to ∙ ap some e)))
  ])
]

-- Every event, accepted or refused, keeps the flags in step with the column.
pub apply_event-InSync :
    (g : Grant) (e : GrantEvent) (p : Payload) (now : ℕ)
    → InSync g
    → InSync (apply_grant_event g e p now).1
unfolding apply_grant_event
apply_event-InSync g e p now v =
    commit-InSync g (evaluate_grant_transition e (resolve_grant_state g now) p)
      (target_not_requested e (resolve_grant_state g now) p) v
