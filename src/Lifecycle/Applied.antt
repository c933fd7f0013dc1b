-- ===== src/Lifecycle/Applied.antt =====
-- services/lifecycle.py: what `apply_grant_event` leaves in the row.
use sas_core.Prelude.{
  ℕ, Bool, true, false, ◌≡◌, refl, ◌⊎◌, ◌≢◌, sym, subst, Option, none, some, arith, inl, inr,
}
use sas_core.Codes.{success}
use sas_core.Records.{Grant}
use sas_core.Lifecycle.States.{
  GrantState, authorized, expired, GrantEvent, is_approve, grant_state_of,
}
use sas_core.Lifecycle.Tables.{grant_transitions}
use sas_core.Lifecycle.Resolve.{
  is_live, grant_expired, resolve_column, resolve_named, resolve_flags, resolve_grant_state,
}
use sas_core.Lifecycle.Transition.{
  Payload, TransitionOutcome, check_grant, evaluate_grant_transition, sync_flags, apply_grant_state,
  commit_outcome, apply_grant_event,
}

lifecycle_state-sync :
    (g : Grant) (t : GrantState) → (sync_flags g t).lifecycle_state ≡ g.lifecycle_state
unfolding sync_flags
lifecycle_state-sync g authorized = refl
lifecycle_state-sync g _ = refl

expire_time-sync :
    (g : Grant) (t : GrantState) → (sync_flags g t).grant_expire_time ≡ g.grant_expire_time
unfolding sync_flags
expire_time-sync g authorized = refl
expire_time-sync g _ = refl

-- The column names the written state, and the clock alone may turn it into EXPIRED.
pub resolve-apply_state :
    (g : Grant) (t : GrantState) (now : ℕ)
    → resolve_grant_state (apply_grant_state g t) now ≡ resolve_named t (grant_expired g now)
unfolding apply_grant_state resolve_grant_state grant_expired grant_state_of
resolve-apply_state g authorized now = refl
resolve-apply_state g _ now = refl

resolve_named_live :
    (s : GrantState) (past : Bool) → is_live (resolve_named s past) ≡ true → past ≡ false
unfolding resolve_named is_live
resolve_named_live s past h = ground arith

resolve_flags_live :
    (g : Grant) (past : Bool) → is_live (resolve_flags g past) ≡ true → past ≡ false
unfolding resolve_flags is_live
resolve_flags_live g past h = ground arith

resolve_column_live :
    (g : Grant) (o : Option GrantState) (past : Bool)
    → is_live (resolve_column g o past) ≡ true
    → past ≡ false
unfolding resolve_column
resolve_column_live g (some s) past h = resolve_named_live s past h
resolve_column_live g none past h = resolve_flags_live g past h

-- A grant in a live state has not run out.
pub live_not_past :
    (g : Grant) (now : ℕ) → is_live (resolve_grant_state g now) ≡ true → grant_expired g now ≡ false
unfolding resolve_grant_state
live_not_past g now h = resolve_column_live g _ (grant_expired g now) h

-- An event other than APPROVE is accepted in a live state, or it is EXPIRE in EXPIRED.
accepted_from :
    (e : GrantEvent) (s t : GrantState) (p : Payload)
    → is_approve e ≡ false
    → (evaluate_grant_transition e s p).to_state ≡ some t
    → (is_live s ≡ true) ⊎ (t ≡ expired)
unfolding evaluate_grant_transition check_grant is_live
accepted_from e s t p a h = ground arith

named_live : (t : GrantState) → resolve_named t false ≡ t
unfolding resolve_named is_live
named_live t = ground arith

pub named_expired : (past : Bool) → resolve_named expired past ≡ expired
unfolding resolve_named is_live
named_expired past = refl

to_state_ok :
    (e : GrantEvent) (s : GrantState) (p : Payload) (t : GrantState)
    → (evaluate_grant_transition e s p).to_state ≡ some t
    → (evaluate_grant_transition e s p).is_ok ≡ true
unfolding evaluate_grant_transition check_grant
to_state_ok e s p t h = ground arith

pub commit_refused :
    (g : Grant) (o : TransitionOutcome GrantState) → o.is_ok ≡ false → commit_outcome g o ≡ g
unfolding commit_outcome
commit_refused g o h = rw h refl

pub commit_accepted :
    (g : Grant) (e : GrantEvent) (s : GrantState) (p : Payload) (t : GrantState)
    → (evaluate_grant_transition e s p).to_state ≡ some t
    → commit_outcome g (evaluate_grant_transition e s p) ≡ apply_grant_state g t
unfolding commit_outcome
commit_accepted g e s p t h = rw (to_state_ok e s p t h, h) refl

-- After an accepted event other than APPROVE the row resolves to the state that the outcome names,
-- under the clock reading of the event.
pub resolve-apply_event :
    (g : Grant) (e : GrantEvent) (p : Payload) (now : ℕ) (t : GrantState)
    → is_approve e ≡ false
    → (apply_grant_event g e p now).0.to_state ≡ some t
    → resolve_grant_state (apply_grant_event g e p now).1 now ≡ t
unfolding apply_grant_event
resolve-apply_event g e p now t a h =
    rw (commit_accepted g e (resolve_grant_state g now) p t h, resolve-apply_state g t now)
      (elim (accepted_from e (resolve_grant_state g now) t p a h) [
        | inl live ↦ rw (live_not_past g now live) (named_live t)
        | inr e ↦ rw e (named_expired (grant_expired g now))
      ])

-- An event is refused with an error code, or accepted with the target of its row.
pub outcome_cases :
    (e : GrantEvent) (s : GrantState) (p : Payload)
    → (((evaluate_grant_transition e s p).is_ok ≡ false)
        × ((evaluate_grant_transition e s p).response_code ≢ success))
      ⊎ (((evaluate_grant_transition e s p).is_ok ≡ true)
          × ((evaluate_grant_transition e s p).to_state ≡ some (grant_transitions e).target))
unfolding evaluate_grant_transition check_grant grant_transitions
outcome_cases e s p = ground arith

-- The row is left as it was, or in the target state.
pub event_cases :
    (g : Grant) (e : GrantEvent) (p : Payload) (now : ℕ)
    → (((apply_grant_event g e p now).0.is_ok ≡ false)
        × ((apply_grant_event g e p now).0.response_code ≢ success)
        × ((apply_grant_event g e p now).1 ≡ g))
      ⊎ (((apply_grant_event g e p now).0.is_ok ≡ true)
          × ((apply_grant_event g e p now).1 ≡ apply_grant_state g (grant_transitions e).target))
unfolding apply_grant_event
event_cases g e p now = elim (outcome_cases e (resolve_grant_state g now) p) [
  | inl (no_op, code) ↦ inl (
    no_op,
    code,
    commit_refused g (evaluate_grant_transition e (resolve_grant_state g now) p) no_op,
  )
  | inr (fine, t) ↦ inr (fine, commit_accepted g e (resolve_grant_state g now) p _ t)
]

abbrev pub SameKeys : Grant → Grant → Type 0
SameKeys a b =
    (a.pk ≡ b.pk) × (a.grant_id ≡ b.grant_id) × (a.cbsd_id ≡ b.cbsd_id) × (a.cbsd_pk ≡ b.cbsd_pk)

-- A new state leaves the keys.
pub apply_state-keys : (g : Grant) (t : GrantState) → SameKeys (apply_grant_state g t) g
unfolding apply_grant_state sync_flags
apply_state-keys g authorized = (refl, refl, refl, refl)
apply_state-keys g _ = (refl, refl, refl, refl)

pub event-keys :
    (g : Grant) (e : GrantEvent) (p : Payload) (now : ℕ)
    → SameKeys (apply_grant_event g e p now).1 g
event-keys g e p now = elim (event_cases g e p now) [
  | inl (no_op, code, same) ↦ subst (λ x. SameKeys x g) (sym same) (refl, refl, refl, refl)
  | inr (fine, same) ↦ subst (λ x. SameKeys x g) (sym same) (apply_state-keys g _)
]
