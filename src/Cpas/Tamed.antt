-- ===== src/Cpas/Tamed.antt =====
-- services/cpas_service.py: a lower power, a suspension and a termination tame a grant.
use sas_core.Prelude.{
  ℕ, Bool, true, false, ◌≡◌, refl, sym, ◌∙◌, ap, subst, Option, none, some, Bool-cases, inl, inr,
  ◌⊎◌, string_eq, arith,
}
use sas_core.Prelude.Int.{ℤ}
use sas_core.Records.{Grant}
use sas_core.Lifecycle.{
  GrantState, suspended, terminated, suspend, terminate, Payload, is_live, resolve_grant_state,
  resolve_column, resolve_named, resolve_flags, grant_expired, grant_transitions,
  evaluate_grant_transition, check_grant, apply_grant_state, sync_flags,
}
use sas_core.Lifecycle.Applied.{apply_state-keys, resolve-apply_state}
use sas_core.Cpas.Apply.{lowers}
use sas_core.Cpas.Lowered.{NoHigher, unlimited, lower, IsTamer, NoHigher-refl, live_or_not}

column_power :
    (g : Grant) (power : Option ℤ) (o : Option GrantState) (past : Bool)
    → resolve_column (record g { max_eirp = power }) o past ≡ resolve_column g o past
unfolding resolve_column resolve_flags
column_power g power none past = refl
column_power g power (some s) past = refl

resolve_power :
    (g : Grant) (power : Option ℤ) (at : ℕ)
    → resolve_grant_state (record g { max_eirp = power }) at ≡ resolve_grant_state g at
unfolding resolve_grant_state grant_expired
resolve_power g power at = column_power g power _ _

lowers-NoHigher : (p : Option ℤ) (auth : ℤ) → lowers p auth ≡ true → NoHigher (some auth) p
unfolding lowers
lowers-NoHigher none auth h = unlimited (some auth)
lowers-NoHigher (some power) auth h = lower auth power (ground arith)

pub power-IsTamer :
    (at : ℕ) (g : Grant) (auth : ℤ)
    → lowers g.max_eirp auth ≡ true
    → g.terminated ≡ false
    → IsTamer at (record g { max_eirp = some auth }) g
power-IsTamer at g auth h t = record {
  keys = (refl, refl, refl, refl);
  low = refl;
  high = refl;
  until = refl;
  power = lowers-NoHigher g.max_eirp auth h;
  alive =
      subst (λ (s : GrantState). (is_live s ≡ false) ⊎ (is_live (resolve_grant_state g at) ≡ true))
        (sym (resolve_power g (some auth) at))
        (live_or_not at (is_live (resolve_grant_state g at)));
  ended = inl t;
}

-- SUSPEND and TERMINATE are accepted in a live state only.
pub suspend_live :
    (s : GrantState) (p : Payload)
    → (evaluate_grant_transition suspend s p).is_ok ≡ true
    → is_live s ≡ true
unfolding evaluate_grant_transition check_grant grant_transitions is_live
suspend_live s p h = ground arith

pub terminate_live :
    (s : GrantState) (p : Payload)
    → (evaluate_grant_transition terminate s p).is_ok ≡ true
    → is_live s ≡ true
unfolding evaluate_grant_transition check_grant grant_transitions is_live
terminate_live s p h = ground arith

named_live :
    (s : GrantState) (a : Bool)
    → is_live (resolve_named s a) ≡ true
    → is_live (resolve_named s false) ≡ true
unfolding resolve_named is_live
named_live s a h = ground arith

flags_live :
    (g : Grant) (a : Bool)
    → is_live (resolve_flags g a) ≡ true
    → is_live (resolve_flags g false) ≡ true
unfolding resolve_flags is_live
flags_live g a h = ground arith

column_live :
    (g : Grant) (o : Option GrantState) (a : Bool)
    → is_live (resolve_column g o a) ≡ true
    → is_live (resolve_column g o false) ≡ true
unfolding resolve_column
column_live g none a h = flags_live g a h
column_live g (some s) a h = named_live s a h

-- A grant that is live at one time is live whenever it has not run out.
live_later :
    (g : Grant) (now at : ℕ)
    → is_live (resolve_grant_state g now) ≡ true
    → grant_expired g at ≡ false
    → is_live (resolve_grant_state g at) ≡ true
unfolding resolve_grant_state
live_later g now at h e = rw e (column_live g _ (grant_expired g now) h)

named_past : (s : GrantState) → is_live (resolve_named s true) ≡ false
unfolding resolve_named is_live
named_past s = ground arith

terminated_dead : (a : Bool) → is_live (resolve_named terminated a) ≡ false
unfolding resolve_named is_live
terminated_dead a = refl

spectrum-apply_state :
    (g : Grant) (s : GrantState)
    → ((apply_grant_state g s).low_frequency ≡ g.low_frequency)
      × ((apply_grant_state g s).high_frequency ≡ g.high_frequency)
      × ((apply_grant_state g s).grant_expire_time ≡ g.grant_expire_time)
      × ((apply_grant_state g s).max_eirp ≡ g.max_eirp)
unfolding apply_grant_state sync_flags
spectrum-apply_state g s = by_state s
  where
    by_state :
        (s : GrantState)
        → ((apply_grant_state g s).low_frequency ≡ g.low_frequency)
          × ((apply_grant_state g s).high_frequency ≡ g.high_frequency)
          × ((apply_grant_state g s).grant_expire_time ≡ g.grant_expire_time)
          × ((apply_grant_state g s).max_eirp ≡ g.max_eirp)
    by_state GrantState.authorized = (refl, refl, refl, refl)
    by_state _ = (refl, refl, refl, refl)

suspended_alive :
    (at now : ℕ) (g : Grant)
    → is_live (resolve_grant_state g now) ≡ true
    → (is_live (resolve_grant_state (apply_grant_state g suspended) at) ≡ false)
      ⊎ (is_live (resolve_grant_state g at) ≡ true)
suspended_alive at now g h = elim (Bool-cases (grant_expired g at)) [
  | inl past ↦ inl (
      ap is_live (resolve-apply_state g suspended at)
      ∙ ap (λ b. is_live (resolve_named suspended b)) past
      ∙ run_out)
  | inr ahead ↦ inr (live_later g now at h ahead)
]
  where
    run_out : is_live (resolve_named suspended true) ≡ false
    run_out = named_past suspended

-- `s` is where CPAS may send a grant.
pub state-IsTamer :
    (at now : ℕ) (g : Grant) (s : GrantState)
    → (s ≡ suspended) ⊎ (s ≡ terminated)
    → is_live (resolve_grant_state g now) ≡ true
    → g.terminated ≡ false
    → IsTamer at (apply_grant_state g s) g
state-IsTamer at now g s k h t = record {
  keys = apply_state-keys g s;
  low = (spectrum-apply_state g s).0;
  high = (spectrum-apply_state g s).1;
  until = (spectrum-apply_state g s).2;
  power =
      subst (λ (p : Option ℤ). NoHigher p g.max_eirp) (sym (spectrum-apply_state g s).3)
        (NoHigher-refl g.max_eirp);
  alive = elim k [
    | inl e ↦
        subst
          (λ (r : GrantState).
            (is_live (resolve_grant_state (apply_grant_state g r) at) ≡ false)
            ⊎ (is_live (resolve_grant_state g at) ≡ true))
          (sym e) (suspended_alive at now g h)
    | inr e ↦
        subst
          (λ (r : GrantState).
            (is_live (resolve_grant_state (apply_grant_state g r) at) ≡ false)
            ⊎ (is_live (resolve_grant_state g at) ≡ true))
          (sym e)
          (inl (
            ap is_live (resolve-apply_state g terminated at)
            ∙ terminated_dead (grant_expired g at)))
  ];
  ended = inl t;
}
