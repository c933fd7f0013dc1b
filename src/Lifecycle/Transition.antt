-- ===== src/Lifecycle/Transition.antt =====
-- services/lifecycle.py: evaluating an event against a table, and writing its effect to a row.
use sas_core.Prelude.{
  ℕ, String, Bool, true, false, ◌&&◌, not, Option, none, some, List, [], ◌∷◌, keep, contains,
  if◌then◌else◌, ◌==◌, string_eq,
}
use sas_core.Codes.{
  missing_param, invalid_param, terminated_grant, suspended_grant, unsync_op_param, success,
}
use sas_core.Records.{Cbsd, Grant}
use sas_core.Lifecycle.States.{
  CbsdState, CbsdEvent, cbsd_state_eq, cbsd_state_beq, GrantState, requested, granted, authorized,
  suspended, terminated, expired, relinquished, GrantEvent, grant_state_eq, grant_state_beq,
  is_approve, cbsd_state_value, grant_state_value,
}
use sas_core.Lifecycle.Tables.{TransitionSpec, cbsd_transitions, grant_transitions}
use sas_core.Lifecycle.Resolve.{is_terminal, resolve_grant_state}

-- The texts of `detail`.
pub data Detail : Type 0 where
  missing : List String → Detail
  illegal_source terminal_state already_terminated authorized_before_granted_heartbeat : Detail
  is_suspended : Detail

pub record TransitionOutcome (S : Type 0) : Type 0 where
  pub is_ok : Bool
  pub response_code : ℕ
  pub from_state : S
  pub to_state : Option S
  pub idempotent_hit : Bool
  pub detail : Option Detail

-- `payload`: the fields that a caller passes, by name.
abbrev pub Payload : Type 0
Payload = List (String × String)

-- `payload.get(name)` is absent or empty
unfoldable pub is_missing : Payload → String → Bool
is_missing [] name = true
is_missing ((k, v) ∷ rest) name = if k == name then v == "" else is_missing rest name

unfoldable pub missing_required_fields : Payload → List String → List String
unfolding is_missing
missing_required_fields payload required = keep (is_missing payload) required

module _ {S : Type 0} where
  abbrev refused : S → ℕ → Detail → TransitionOutcome S
  refused current code d = record {
    is_ok = false;
    response_code = code;
    from_state = current;
    to_state = none;
    idempotent_hit = false;
    detail = some d;
  }

  abbrev accepted : TransitionSpec S → S → Bool → TransitionOutcome S
  accepted spec current hit = record {
    is_ok = true;
    response_code = spec.success_code;
    from_state = current;
    to_state = some spec.target;
    idempotent_hit = hit;
    detail = none;
  }

unfoldable pub check_cbsd :
    TransitionSpec CbsdState → CbsdState → List String → TransitionOutcome CbsdState
unfolding cbsd_state_beq
check_cbsd spec current (m ∷ ms) = refused current missing_param (missing (m ∷ ms))
check_cbsd spec current [] =
    if contains current spec.sources
    then accepted spec current (spec.idempotent && current == spec.target)
    else refused current spec.failure_code illegal_source

unfoldable pub evaluate_cbsd_transition :
    CbsdEvent → CbsdState → Payload → TransitionOutcome CbsdState
unfolding cbsd_transitions missing_required_fields check_cbsd
evaluate_cbsd_transition e current payload =
    let spec = cbsd_transitions e in
    check_cbsd spec current (missing_required_fields payload spec.required_fields)

unfoldable pub check_grant :
    GrantEvent → TransitionSpec GrantState → GrantState → List String → TransitionOutcome GrantState
unfolding grant_state_beq is_terminal is_approve
check_grant e spec current (m ∷ ms) = refused current missing_param (missing (m ∷ ms))
check_grant e spec current [] =
    if is_terminal current && not (is_approve e)
    then (if spec.idempotent && current == spec.target
        then accepted spec current true
        else refused current invalid_param terminal_state)
    else if contains current spec.sources
    then accepted spec current (spec.idempotent && current == spec.target)
    else refused current spec.failure_code illegal_source

unfoldable pub evaluate_grant_transition :
    GrantEvent → GrantState → Payload → TransitionOutcome GrantState
unfolding grant_transitions missing_required_fields check_grant
evaluate_grant_transition e current payload =
    let spec = grant_transitions e in
    check_grant e spec current (missing_required_fields payload spec.required_fields)

unfoldable pub apply_cbsd_state : Cbsd → CbsdState → Cbsd
unfolding cbsd_state_value
apply_cbsd_state c s = record c { lifecycle_state = cbsd_state_value s }

-- The flag `terminated` and, for two states, `authorized` follow the state.
unfoldable pub sync_flags : Grant → GrantState → Grant
sync_flags g authorized = record g { authorized = true; terminated = false }
sync_flags g granted = record g { authorized = false; terminated = false }
sync_flags g suspended = record g { terminated = false }
sync_flags g terminated = record g { terminated = true }
sync_flags g expired = record g { terminated = true }
sync_flags g relinquished = record g { terminated = true }
sync_flags g requested = g

unfoldable pub apply_grant_state : Grant → GrantState → Grant
unfolding grant_state_value sync_flags
apply_grant_state g s = sync_flags (record g { lifecycle_state = grant_state_value s }) s

unfoldable pub commit_outcome : Grant → TransitionOutcome GrantState → Grant
unfolding apply_grant_state
commit_outcome g o =
    if o.is_ok then elim o.to_state [ none ↦ g | some s ↦ apply_grant_state g s ] else g

-- The outcome, and the row as it is left.
unfoldable pub apply_grant_event :
    Grant → GrantEvent → Payload → ℕ → TransitionOutcome GrantState × Grant
apply_grant_event g e payload now =
    let outcome = evaluate_grant_transition e (resolve_grant_state g now) payload in
    (outcome, commit_outcome g outcome)

abbrev gate :
    Bool → ℕ → GrantState → Option GrantState → Option Detail → TransitionOutcome GrantState
gate fine code from to d = record {
  is_ok = fine;
  response_code = code;
  from_state = from;
  to_state = to;
  idempotent_hit = false;
  detail = d;
}

unfoldable pub gate_state : GrantState → String → TransitionOutcome GrantState
unfolding grant_state_beq
gate_state terminated op =
    gate false terminated_grant terminated (some terminated) (some already_terminated)
gate_state relinquished op = gate false invalid_param relinquished none (some terminal_state)
gate_state current op =
    if op == "AUTHORIZED" && current == granted
    then gate false unsync_op_param current none (some authorized_before_granted_heartbeat)
    else if current == suspended
    then gate false suspended_grant current (some suspended) (some is_suspended)
    else gate true success current (some current) none

unfoldable pub heartbeat_operation_allowed : Grant → String → ℕ → TransitionOutcome GrantState
heartbeat_operation_allowed g op now = gate_state (resolve_grant_state g now) op
