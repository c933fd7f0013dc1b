-- ===== src/Heartbeat/Guards.antt =====
-- services/heartbeat_service.py: the guards of a heartbeat whose CBSD and grant were found.
use sas_core.Prelude.{
  ℕ, String, Bool, false, not, Option, none, some, leb, nat_beq, if◌then◌else◌, string_eq,
}
use sas_core.Codes.{blacklisted, invalid_param, terminated_grant, suspended_grant}
use sas_core.Clock.{trunc_sec}
use sas_core.Records.{Cbsd, Grant}
use sas_core.Store.{Store, Checks}
use sas_core.Auth.{is_cbsd_blacklisted, peer_has_grant_for_cbsd}
use sas_core.Lifecycle.{expire, apply_grant_event, heartbeat_operation_allowed}
use sas_core.Heartbeat.Reply.{
  HeartbeatRequest, HeartbeatReply, deny, suspend_reply, ids_payload, terminate_now,
  persist_federal_termination, grant_overlaps_wisp, gate_reply,
}
use sas_core.Heartbeat.Authorize.{meas_error, meas_step}

unfoldable pub is_code : Option ℕ → ℕ → Bool
is_code none k = false
is_code (some code) k = nat_beq code k

unfoldable pub has_run_out : Grant → ℕ → Bool
has_run_out g now = leb (trunc_sec g.grant_expire_time) (trunc_sec now)

-- From the gate on: DPA, federal 500, expiration, WISP, federal 501, and then the report.
unfoldable pub heartbeat_allowed :
    Checks
    → Store
    → Cbsd
    → Grant
    → HeartbeatRequest
    → String
    → String
    → String
    → ℕ
    → HeartbeatReply × Grant
heartbeat_allowed env db c g req cid gid op now =
    let federal = env.federal_code db c g in
    if env.overlaps_active_dpa db g
    then (suspend_reply g cid gid now, g)
    else if is_code federal terminated_grant
    then (
      deny terminated_grant (some cid) (some gid) now,
      persist_federal_termination g cid gid now,
    )
    else if has_run_out g now
    then (
      deny invalid_param (some cid) (some gid) now,
      (apply_grant_event g expire (ids_payload cid gid) now).1,
    )
    else if grant_overlaps_wisp db g
    then (deny terminated_grant (some cid) (some gid) now, (terminate_now g cid gid now).1)
    else if is_code federal suspended_grant
    then (suspend_reply g cid gid now, g)
    else meas_step env db c g req cid gid op now (meas_error c g req)

unfoldable pub heartbeat_grant :
    Checks
    → Store
    → Cbsd
    → Grant
    → HeartbeatRequest
    → String
    → String
    → String
    → ℕ
    → HeartbeatReply × Grant
heartbeat_grant env db c g req cid gid op now =
    let life = heartbeat_operation_allowed g op now in
    if is_cbsd_blacklisted db c.fcc_id c.cbsd_serial_number
    then (deny blacklisted (some cid) (some gid) now, g)
    else if peer_has_grant_for_cbsd env db c
    then (deny terminated_grant (some cid) (some gid) now, (terminate_now g cid gid now).1)
    else if not life.is_ok
    then (gate_reply g cid gid now life.response_code, g)
    else heartbeat_allowed env db c g req cid gid op now
