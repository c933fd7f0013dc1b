-- ===== src/Lifecycle/Resolve.antt =====
-- services/lifecycle.py: the state that a row is in, from its column, its flags and the clock.
use sas_core.Prelude.{
  ℕ, Bool, ◌&&◌, Option, none, some, List, [], ◌∷◌, leb, contains, if◌then◌else◌,
}
use sas_core.Clock.{trunc_sec}
use sas_core.Records.{Cbsd, Grant}
use sas_core.Lifecycle.States.{
  CbsdState, unregistered, registered, GrantState, granted, authorized, suspended, terminated,
  expired, relinquished, grant_state_eq, cbsd_state_of, grant_state_of, grant_state_beq,
}

-- TERMINAL_GRANT_STATES
abbrev pub terminal_grant_states : List GrantState
terminal_grant_states = terminated ∷ expired ∷ relinquished ∷ []

unfoldable pub is_terminal : GrantState → Bool
unfolding grant_state_beq
is_terminal s = contains s terminal_grant_states

-- No row is UNREGISTERED; a text that names no state counts as REGISTERED.
unfoldable pub resolve_cbsd_state : Option Cbsd → CbsdState
resolve_cbsd_state none = unregistered
resolve_cbsd_state (some c) = elim (cbsd_state_of c.lifecycle_state) [
  | some s ↦ s
  | none ↦ registered
]

-- The three states of a grant that has not ended.
unfoldable pub is_live : GrantState → Bool
unfolding grant_state_beq
is_live s = contains s (granted ∷ authorized ∷ suspended ∷ [])

unfoldable pub grant_expired : Grant → ℕ → Bool
grant_expired g now = leb (trunc_sec g.grant_expire_time) (trunc_sec now)

-- The text of the column names a state; only GRANTED, AUTHORIZED and SUSPENDED expire by the clock.
unfoldable pub resolve_named : GrantState → Bool → GrantState
unfolding is_live
resolve_named s past = if is_live s && past then expired else s

-- The column names no state: the legacy flags decide.
unfoldable pub resolve_flags : Grant → Bool → GrantState
resolve_flags g past =
    if g.terminated
    then terminated
    else if past
    then expired
    else if g.authorized
    then authorized
    else granted

unfoldable pub resolve_column : Grant → Option GrantState → Bool → GrantState
resolve_column g (some s) past = resolve_named s past
resolve_column g none past = resolve_flags g past

unfoldable pub resolve_grant_state : Grant → ℕ → GrantState
unfolding resolve_column
resolve_grant_state g now =
    resolve_column g (grant_state_of g.lifecycle_state) (grant_expired g now)
