-- ===== src/Registration/Quiet.antt =====
-- services/registration_service.py: what `_terminate_grants` leaves of one grant.
use sas_core.Prelude.{
  ℕ, String, Bool, true, false, ◌&&◌, not, ◌≡◌, ◌≢◌, refl, sym, ◌∙◌, ap, subst, Option, none, some,
  eq_iff, [], ◌∷◌, Bool-cases, inl, inr, ◌⊎◌, ◌==◌, string_eq, arith,
}
use sas_core.Records.{Grant}
use sas_core.Store.{Store}
use sas_core.Auth.{lock_cbsd_row}
use sas_core.Lifecycle.{
  GrantState, terminate, terminated, is_live, is_terminal, resolve_grant_state, resolve_column,
  resolve_named, resolve_flags, grant_state_of, grant_expired, grant_transitions,
  evaluate_grant_transition, check_grant, apply_grant_event,
}
use sas_core.Lifecycle.Flags.{InSync}
use sas_core.Lifecycle.Applied.{event_cases, resolve-apply_state}
use sas_core.Registration.Table.{end_grant}

-- The grant belongs to another CBSD, or it is in no live state.
abbrev pub Quiet : String → ℕ → Grant → Type 0
Quiet cid now g = ((g.cbsd_id == cid) ≡ false) ⊎ (is_live (resolve_grant_state g now) ≡ false)

-- A stored grant: its flags follow its state, its names are not empty, and its CBSD has a row.
pub record IsStored (db : Store) (g : Grant) : Type 0 where
  pub synced : InSync g
  pub named : (g.grant_id == "") ≡ false
  pub owner_named : (g.cbsd_id == "") ≡ false
  pub owned : lock_cbsd_row db.cbsds g.cbsd_id ≢ none

terminal_not_live :
    (s : GrantState) (past : Bool) → is_terminal s ≡ true → is_live (resolve_named s past) ≡ false
unfolding is_terminal is_live resolve_named
terminal_not_live s past h = ground arith

flags_not_live :
    (g : Grant) (past : Bool) → g.terminated ≡ true → is_live (resolve_flags g past) ≡ false
unfolding is_live resolve_flags
flags_not_live g past h = ground arith

column_not_live :
    (g : Grant) (past : Bool) (o : Option GrantState)
    → InSync g
    → grant_state_of g.lifecycle_state ≡ o
    → g.terminated ≡ true
    → is_live (resolve_column g o past) ≡ false
unfolding resolve_column
column_not_live g past none v e h = flags_not_live g past h
column_not_live g past (some s) v e h = terminal_not_live s past (sym (v.ended s e) ∙ h)

-- A grant that is marked terminated is in no live state.
terminated_not_live :
    (g : Grant) (now : ℕ)
    → InSync g
    → g.terminated ≡ true
    → is_live (resolve_grant_state g now) ≡ false
unfolding resolve_grant_state
terminated_not_live g now v h = column_not_live g (grant_expired g now) _ v refl h

named_terminated : (past : Bool) → is_live (resolve_named terminated past) ≡ false
unfolding is_live resolve_named
named_terminated past = refl

-- TERMINATE is accepted in every live state.
terminate_refused :
    (s : GrantState) (cid gid : String)
    → (cid == "") ≡ false
    → (gid == "") ≡ false
    → (evaluate_grant_transition terminate s (("cbsdId", cid) ∷ ("grantId", gid) ∷ [])).is_ok
      ≡ false
    → is_live s ≡ false
unfolding evaluate_grant_transition check_grant grant_transitions is_live
terminate_refused s cid gid p q h = ground arith

outcome_is :
    (g : Grant) (cid : String) (now : ℕ)
    → (apply_grant_event g terminate (("cbsdId", cid) ∷ ("grantId", g.grant_id) ∷ []) now).0.is_ok
      ≡ (evaluate_grant_transition terminate
          (resolve_grant_state g now)
          (("cbsdId", cid) ∷ ("grantId", g.grant_id) ∷ [])).is_ok
unfolding apply_grant_event
outcome_is g cid now = refl

pub event_quiet :
    (g : Grant) (cid : String) (now : ℕ)
    → (g.cbsd_id == cid) ≡ true
    → (g.cbsd_id == "") ≡ false
    → (g.grant_id == "") ≡ false
    → is_live (
        resolve_grant_state
          (apply_grant_event g terminate (("cbsdId", cid) ∷ ("grantId", g.grant_id) ∷ []) now).1
          now)
      ≡ false
unfolding grant_transitions
event_quiet g cid now e p q =
    let named : (cid == "") ≡ false =
      subst (λ (s : String). (s == "") ≡ false) ((eq_iff g.cbsd_id cid).0 e) p in
    elim (event_cases g terminate (("cbsdId", cid) ∷ ("grantId", g.grant_id) ∷ []) now) [
      | inl (no_op, code, same) ↦
          ap (λ (x : Grant). is_live (resolve_grant_state x now)) same
          ∙ terminate_refused (resolve_grant_state g now) cid g.grant_id named q
              (sym (outcome_is g cid now) ∙ no_op)
      | inr (fine, same) ↦
          ap (λ (x : Grant). is_live (resolve_grant_state x now)) same
          ∙ ap is_live (resolve-apply_state g terminated now)
          ∙ named_terminated (grant_expired g now)
    ]

split_and : (p q : Bool) → (p && q) ≡ true → (p ≡ true) × (q ≡ true)
split_and p q h = ground arith

stays_quiet : (p q : Bool) → (p && not q) ≡ false → (p ≡ false) ⊎ (q ≡ true)
stays_quiet p q h = ground arith

pub end_grant-Quiet :
    (db : Store) (cid : String) (now : ℕ) (g : Grant)
    → IsStored db g
    → Quiet cid now (end_grant cid now g)
unfolding end_grant
end_grant-Quiet db cid now g v = elim (Bool-cases (g.cbsd_id == cid && not g.terminated)) [
  | inl e ↦ rw e (
      inr (
        event_quiet g cid now (split_and (g.cbsd_id == cid) (not g.terminated) e).0 v.owner_named
          v.named))
  | inr e ↦ rw e (elim (stays_quiet (g.cbsd_id == cid) g.terminated e) [
    | inl other ↦ inl other
    | inr ended ↦ inr (terminated_not_live g now v.synced ended)
  ])
]
