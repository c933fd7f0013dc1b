-- ===== src/Lifecycle/Terminal.antt =====
-- services/lifecycle.py: TERMINATED, EXPIRED and RELINQUISHED are final, and the legacy flags
-- follow the state.
use sas_core.Prelude.{
  ℕ, Bool, true, false, ◌≡◌, ◌≤◌, ◌∙◌, ◌⊎◌, Option, none, some, List, [], ◌∷◌, arith, inl, inr,
}
use sas_core.Records.{Grant}
use sas_core.Lifecycle.States.{GrantState, expired, GrantEvent, is_approve, grant_state_of}
use sas_core.Lifecycle.Resolve.{
  is_terminal, is_live, grant_expired, resolve_column, resolve_named, resolve_flags,
  resolve_grant_state,
}
use sas_core.Lifecycle.Transition.{
  Payload, check_grant, evaluate_grant_transition, apply_grant_event,
}
use sas_core.Lifecycle.Applied.{commit_accepted, commit_refused, resolve-apply_state, named_expired}

-- What has run out stays so.
pub expired_mono :
    (g : Grant) (now later : ℕ)
    → now ≤ later
    → grant_expired g now ≡ true
    → grant_expired g later ≡ true
unfolding grant_expired
expired_mono g now later h e = ground arith

column_mono :
    (g : Grant) (o : Option GrantState) (past past' : Bool)
    → (past ≡ true → past' ≡ true)
    → is_terminal (resolve_column g o past) ≡ true
    → resolve_column g o past' ≡ resolve_column g o past
unfolding resolve_column resolve_named is_live is_terminal resolve_flags
column_mono g (some s) past past' m h = ground arith
column_mono g none past past' m h = ground arith

-- A terminal state is the same at every later time.
pub terminal_later :
    (g : Grant) (now later : ℕ)
    → now ≤ later
    → is_terminal (resolve_grant_state g now) ≡ true
    → resolve_grant_state g later ≡ resolve_grant_state g now
unfolding resolve_grant_state
terminal_later g now later le h =
    column_mono g (grant_state_of g.lifecycle_state) (grant_expired g now) (grant_expired g later)
      (expired_mono g now later le) h

-- From a terminal state only EXPIRE in EXPIRED is accepted.
terminal_outcome :
    (e : GrantEvent) (s : GrantState) (p : Payload)
    → is_approve e ≡ false
    → is_terminal s ≡ true
    → ((evaluate_grant_transition e s p).is_ok ≡ false)
      ⊎ ((s ≡ expired) × ((evaluate_grant_transition e s p).to_state ≡ some expired))
unfolding evaluate_grant_transition check_grant
terminal_outcome e s p a h = ground arith

terminal_step :
    (g : Grant) (e : GrantEvent) (p : Payload) (now later : ℕ)
    → now ≤ later
    → is_approve e ≡ false
    → is_terminal (resolve_grant_state g now) ≡ true
    → resolve_grant_state (apply_grant_event g e p now).1 later ≡ resolve_grant_state g now
unfolding apply_grant_event
terminal_step g e p now later le a h = elim (terminal_outcome e (resolve_grant_state g now) p a h) [
  | inl no_op ↦
      rw (commit_refused g (evaluate_grant_transition e (resolve_grant_state g now) p) no_op)
        (terminal_later g now later le h)
  | inr (s, t) ↦
      rw
        (
          commit_accepted g e (resolve_grant_state g now) p expired t,
          resolve-apply_state g expired later,
          s,
        )
        (named_expired (grant_expired g later))
]

-- A sequence of events on one grant, each with its payload and its time.
abbrev pub History : Type 0
History = List (GrantEvent × Payload × ℕ)

pub run_events : Grant → History → Grant
run_events g [] = g
run_events g ((e, p, t) ∷ rest) = run_events (apply_grant_event g e p t).1 rest

-- No event is APPROVE, and the times do not fall, from `now` up to `last`.
abbrev pub Ordered : ℕ → History → ℕ → Type 0
Ordered now [] last = now ≤ last
Ordered now ((e, p, t) ∷ rest) last = (now ≤ t) × (is_approve e ≡ false) × Ordered t rest last

-- A grant that is TERMINATED, EXPIRED or RELINQUISHED at some time is in that same state after every
-- later sequence of events other than APPROVE.
pub terminal_forever :
    (g : Grant) (now last : ℕ) (h : History)
    → is_terminal (resolve_grant_state g now) ≡ true
    → Ordered now h last
    → resolve_grant_state (run_events g h) last ≡ resolve_grant_state g now
unfolding run_events
terminal_forever g now last [] t o = terminal_later g now last o t
terminal_forever g now last ((e, p, at) ∷ rest) t o =
    let here : resolve_grant_state g at ≡ resolve_grant_state g now =
      terminal_later g now at o.0 t in
    let t' : is_terminal (resolve_grant_state g at) ≡ true = rw here t in
    let stays = terminal_step g e p at at (omega arith) o.1 t' in
    terminal_forever (apply_grant_event g e p at).1 at last rest (rw stays t') o.2 ∙ stays ∙ here
