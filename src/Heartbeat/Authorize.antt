-- ===== src/Heartbeat/Authorize.antt =====
-- services/heartbeat_service.py: the end of a heartbeat that passes its guards: the report, the renewal
-- and the authorization.
use sas_core.Prelude.{
  ℕ, String, Bool, true, false, ◌&&◌, not, Option, none, some, [], ◌∷◌, contains, if◌then◌else◌,
  string_eq,
}
use sas_core.Codes.{success}
use sas_core.Clock.{trunc_sec}
use sas_core.Records.{Cbsd, Grant}
use sas_core.Store.{Store, Checks}
use sas_core.Auth.{admin_flag_set}
use sas_core.Lifecycle.{authorize, apply_grant_event}
use sas_core.MeasReport.{meas_with_grant, flag_meas_hbt, validate_meas_report}
use sas_core.Renewal.{RenewalResult, apply_renewal}
use sas_core.Heartbeat.Window.{compute_transmit_expire_time}
use sas_core.Heartbeat.Reply.{
  HeartbeatRequest, HeartbeatReply, deny, interval_of, authorize_payload,
}

-- The error of the measurement report, if one was asked for.
unfoldable pub meas_error : Cbsd → Grant → HeartbeatRequest → Option ℕ
meas_error c g req =
    if g.meas_report_requested && contains meas_with_grant c.registration.meas_capability
    then validate_meas_report req.meas_report false
    else none

unfoldable pub asks_report : Store → Cbsd → Bool
asks_report db c =
    admin_flag_set db flag_meas_hbt && contains meas_with_grant c.registration.meas_capability

-- The row of a grant that may transmit until `tx`.
unfoldable pub authorize_row : Store → Cbsd → Grant → String → String → String → ℕ → ℕ → Grant
authorize_row db c g cid gid op tx now =
    let row =
      (apply_grant_event (record g { transmit_expire_time = some tx }) authorize
        (authorize_payload cid gid op) now).1 in
    if asks_report db c then record row { meas_report_requested = true } else row

unfoldable pub authorize_reply :
    Store → Cbsd → Grant → String → String → Bool → ℕ → ℕ → HeartbeatReply
authorize_reply db c row cid gid renewed tx now = record {
  response_code = success;
  cbsd_id = some cid;
  grant_id = some gid;
  transmit_expire_time = trunc_sec tx;
  grant_expire_time = if renewed then some (trunc_sec row.grant_expire_time) else none;
  heartbeat_interval = some (interval_of row);
  meas_report_config = if asks_report db c then some (meas_with_grant ∷ []) else none;
}

unfoldable pub authorize_grant :
    Checks → Store → Cbsd → Grant → String → String → String → Bool → ℕ → HeartbeatReply × Grant
authorize_grant env db c g cid gid op renewed now =
    let tx =
      compute_transmit_expire_time env db c g.grant_expire_time g.low_frequency g.high_frequency
        now in
    let row = authorize_row db c g cid gid op tx now in
    (authorize_reply db c row cid gid renewed tx now, row)

unfoldable pub after_renewal :
    Checks
    → Store
    → Cbsd
    → String
    → String
    → String
    → ℕ
    → RenewalResult × Grant
    → HeartbeatReply × Grant
after_renewal env db c cid gid op now renewal =
    if not renewal.0.is_ok
    then (deny renewal.0.response_code (some cid) (some gid) now, renewal.1)
    else authorize_grant env db c renewal.1 cid gid op true now

unfoldable pub renew_or_authorize :
    Checks → Store → Cbsd → Grant → String → String → String → Bool → ℕ → HeartbeatReply × Grant
renew_or_authorize env db c g cid gid op renew now =
    if renew
    then after_renewal env db c cid gid op now (apply_renewal db g now)
    else authorize_grant env db c g cid gid op false now

unfoldable pub meas_step :
    Checks
    → Store
    → Cbsd
    → Grant
    → HeartbeatRequest
    → String
    → String
    → String
    → ℕ
    → Option ℕ
    → HeartbeatReply × Grant
meas_step env db c g req cid gid op now (some code) = (deny code (some cid) (some gid) now, g)
meas_step env db c g req cid gid op now none =
    renew_or_authorize env db c g cid gid op req.grant_renew now
