-- ===== src/Heartbeat/Reply.antt =====
-- services/heartbeat_service.py: a heartbeat, its answer, and the answers of a refusal.
use sas_core.Prelude.{
  ℕ, ◌-◌, String, Bool, false, Option, none, some, List, [], ◌∷◌, any, nat_beq, if◌then◌else◌,
  string_eq,
}
use sas_core.Codes.{invalid_param, terminated_grant, suspended_grant}
use sas_core.Clock.{second, trunc_sec}
use sas_core.Records.{Grant}
use sas_core.Store.{Store, Wisp}
use sas_core.Lifecycle.{
  GrantState, terminated, terminate, Payload, TransitionOutcome, apply_grant_event,
  apply_grant_state,
}
use sas_core.Spectrum.{overlaps}
use sas_core.MeasReport.{MeasReport}

-- services/grant_service.py: HEARTBEAT_INTERVAL_SEC
abbrev pub heartbeat_interval_sec : ℕ
heartbeat_interval_sec = 60

pub record HeartbeatRequest : Type 0 where
  pub cbsd_id : Option String
  pub grant_id : Option String
  pub operation_state : Option String
  pub meas_report : MeasReport
  pub grant_renew : Bool

pub record HeartbeatReply : Type 0 where
  pub response_code : ℕ
  pub cbsd_id : Option String
  pub grant_id : Option String
  pub transmit_expire_time : ℕ
  pub grant_expire_time : Option ℕ
  pub heartbeat_interval : Option ℕ
  pub meas_report_config : Option (List String)

-- `_past_tx`
unfoldable pub past_tx : ℕ → ℕ
past_tx now = trunc_sec now - second

-- `_base` without a transmission
abbrev pub deny : ℕ → Option String → Option String → ℕ → HeartbeatReply
deny code cid gid now = record {
  response_code = code;
  cbsd_id = cid;
  grant_id = gid;
  transmit_expire_time = past_tx now;
  grant_expire_time = none;
  heartbeat_interval = none;
  meas_report_config = none;
}

-- `grant.heartbeat_interval or HEARTBEAT_INTERVAL_SEC`
unfoldable pub interval_of : Grant → ℕ
interval_of g =
    if nat_beq g.heartbeat_interval 0 then heartbeat_interval_sec else g.heartbeat_interval

-- The answer 501: the grant stands, the transmission does not.
abbrev pub suspend_reply : Grant → String → String → ℕ → HeartbeatReply
suspend_reply g cid gid now = record (deny suspended_grant (some cid) (some gid) now) {
  grant_expire_time = some (trunc_sec g.grant_expire_time);
  heartbeat_interval = some (interval_of g);
}

abbrev pub ids_payload : String → String → Payload
ids_payload cid gid = ("cbsdId", cid) ∷ ("grantId", gid) ∷ []

abbrev pub authorize_payload : String → String → String → Payload
authorize_payload cid gid op = ("cbsdId", cid) ∷ ("grantId", gid) ∷ ("operationState", op) ∷ []

unfoldable pub terminate_now : Grant → String → String → ℕ → TransitionOutcome GrantState × Grant
terminate_now g cid gid now = apply_grant_event g terminate (ids_payload cid gid) now

-- TERMINATED is written even where the event is refused.
unfoldable pub persist_federal_termination : Grant → String → String → ℕ → Grant
persist_federal_termination g cid gid now =
    let outcome = terminate_now g cid gid now in
    if outcome.0.is_ok then outcome.1 else apply_grant_state outcome.1 terminated

unfoldable pub overlaps_wisp : Grant → Wisp → Bool
overlaps_wisp g w = elim w.frequency [
  | none ↦ false
  | some r ↦ overlaps g.low_frequency g.high_frequency r.0 r.1
]

unfoldable pub grant_overlaps_wisp : Store → Grant → Bool
grant_overlaps_wisp db g = any (overlaps_wisp g) db.wisps

-- What the gate of the lifecycle table refuses, answered.
unfoldable pub gate_reply : Grant → String → String → ℕ → ℕ → HeartbeatReply
gate_reply g cid gid now code =
    if nat_beq code invalid_param
    then deny invalid_param (some cid) none now
    else if nat_beq code terminated_grant
    then deny terminated_grant (some cid) (some gid) now
    else if nat_beq code suspended_grant
    then suspend_reply g cid gid now
    else deny code (some cid) (some gid) now
