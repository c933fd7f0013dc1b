-- ===== src/Lifecycle/States.antt =====
-- services/lifecycle.py: the states and events. A column holds a state's text, its `.value`.
use sas_core.Prelude.{
  ℕ, String, Bool, true, false, ◌≡◌, refl, ◌↔◌, Option, none, some, arith, if◌then◌else◌, Eq, ◌==◌,
  nat_beq, string_eq,
}

pub data CbsdState : Type 0 where
  unregistered registered deregistered : CbsdState

pub data GrantState : Type 0 where
  requested granted authorized suspended terminated expired relinquished : GrantState

pub data CbsdEvent : Type 0 where
  register reregister deregister : CbsdEvent

pub data GrantEvent : Type 0 where
  approve authorize suspend terminate expire relinquish : GrantEvent

-- Members of an enumeration are compared through their positions.
cbsd_index : CbsdState → ℕ
cbsd_index unregistered = 0
cbsd_index registered = 1
cbsd_index deregistered = 2

unfoldable pub cbsd_state_beq : CbsdState → CbsdState → Bool
unfolding cbsd_index
cbsd_state_beq a b = nat_beq (cbsd_index a) (cbsd_index b)

pub cbsd_state_beq_iff : (a b : CbsdState) → (cbsd_state_beq a b ≡ true) ↔ (a ≡ b)
unfolding cbsd_state_beq
cbsd_state_beq_iff a b = ground arith

instance abbrev pub cbsd_state_eq : Eq CbsdState
cbsd_state_eq = record { same = cbsd_state_beq; same_iff = cbsd_state_beq_iff }

grant_index : GrantState → ℕ
grant_index requested = 0
grant_index granted = 1
grant_index authorized = 2
grant_index suspended = 3
grant_index terminated = 4
grant_index expired = 5
grant_index relinquished = 6

unfoldable pub grant_state_beq : GrantState → GrantState → Bool
unfolding grant_index
grant_state_beq a b = nat_beq (grant_index a) (grant_index b)

pub grant_state_beq_iff : (a b : GrantState) → (grant_state_beq a b ≡ true) ↔ (a ≡ b)
unfolding grant_state_beq
grant_state_beq_iff a b = ground arith

instance abbrev pub grant_state_eq : Eq GrantState
grant_state_eq = record { same = grant_state_beq; same_iff = grant_state_beq_iff }

unfoldable pub is_approve : GrantEvent → Bool
is_approve approve = true
is_approve _ = false

-- `CbsdState.X.value`
unfoldable pub cbsd_state_value : CbsdState → String
cbsd_state_value unregistered = "UNREGISTERED"
cbsd_state_value registered = "REGISTERED"
cbsd_state_value deregistered = "DEREGISTERED"

-- `CbsdState(raw)`; `none` is the ValueError.
unfoldable pub cbsd_state_of : String → Option CbsdState
cbsd_state_of raw =
    if raw == "UNREGISTERED"
    then some unregistered
    else if raw == "REGISTERED"
    then some registered
    else if raw == "DEREGISTERED"
    then some deregistered
    else none

-- `GrantState.X.value`
unfoldable pub grant_state_value : GrantState → String
grant_state_value requested = "REQUESTED"
grant_state_value granted = "GRANTED"
grant_state_value authorized = "AUTHORIZED"
grant_state_value suspended = "SUSPENDED"
grant_state_value terminated = "TERMINATED"
grant_state_value expired = "EXPIRED"
grant_state_value relinquished = "RELINQUISHED"

-- `GrantState(raw)`; `none` is the ValueError.
unfoldable pub grant_state_of : String → Option GrantState
grant_state_of raw =
    if raw == "REQUESTED"
    then some requested
    else if raw == "GRANTED"
    then some granted
    else if raw == "AUTHORIZED"
    then some authorized
    else if raw == "SUSPENDED"
    then some suspended
    else if raw == "TERMINATED"
    then some terminated
    else if raw == "EXPIRED"
    then some expired
    else if raw == "RELINQUISHED"
    then some relinquished
    else none

-- The column's text names the state that was written.
pub grant_state_of-value : (s : GrantState) → grant_state_of (grant_state_value s) ≡ some s
unfolding grant_state_of grant_state_value
grant_state_of-value requested = refl
grant_state_of-value _ = refl

pub cbsd_state_of-value : (s : CbsdState) → cbsd_state_of (cbsd_state_value s) ≡ some s
unfolding cbsd_state_of cbsd_state_value
cbsd_state_of-value unregistered = refl
cbsd_state_of-value _ = refl
