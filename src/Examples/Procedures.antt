-- ===== src/Examples/Procedures.antt =====
-- Heartbeats, relinquishments and deregistrations.
use sas_core.Prelude.{◌==◌, ◌&&◌, ◌||◌, not, string_eq}
use sas_core.Store.{Store}
use sas_core.Auth.{admin_flag_set}
use sas_core.MeasReport.{flag_meas_reg, flag_meas_hbt}
use sas_core.MeasReport.Flags.{
  set_admin_flag, clear_admin_flags, enable_measurement_report_registration, flags_as_set,
}
use sas_core.Prelude.{String, ◌-◌, ◌≤◌, false, ◌≡◌, ◌≢◌, ◌⊎◌, refl, none, some}
use sas_core.Codes.{success, invalid_param}
use sas_core.Clock.{trunc_sec, add_seconds}
use sas_core.MeasReport.{no_report}
use sas_core.Rows.{present}
use sas_core.Rows.Saved.{UniquePk, UniqueCbsd}
use sas_core.Heartbeat.{HeartbeatRequest, heartbeat_one}
use sas_core.Heartbeat.Success.{Passed, heartbeat-Passed}
use sas_core.Heartbeat.Frame.{Framed, heartbeat-Framed}
use sas_core.Records.{Grant}
use sas_core.Auth.{lock_grant_row}
use sas_core.Lifecycle.{is_live, resolve_grant_state}
use sas_core.Heartbeat.Authorized.{IsAuthorized, heartbeat_authorizes}
use sas_core.Heartbeat.Transmit.{heartbeat_transmit}
use sas_core.Relinquishment.{RelinquishmentRequest, resp, relinquish_one}
use sas_core.Relinquishment.Final.{Settled, relinquish-Settled, relinquish_once}
use sas_core.Deregistration.{deregister_one}
use sas_core.Deregistration.Gone.{Left, deregister-Left}
use sas_core.Examples.Data.{tables, calm}

abbrev beat : HeartbeatRequest
beat = record {
  cbsd_id = some "fcc/1";
  grant_id = some "grant/a";
  operation_state = some "GRANTED";
  meas_report = no_report;
  grant_renew = false;
}

beat-success : (heartbeat_one calm none tables 200_000_000 beat).0.response_code ≡ success
unfolding heartbeat_one sas_core.Heartbeat.heartbeat_ids present sas_core.Heartbeat.heartbeat_locked
    sas_core.Heartbeat.wrong_certificate sas_core.Auth.lock_cbsd_row
    sas_core.Auth.cbsd_certificate_mismatch sas_core.Heartbeat.with_rows
    sas_core.Auth.lock_grant_row sas_core.Heartbeat.heartbeat_grant
    sas_core.Auth.is_cbsd_blacklisted sas_core.Auth.peer_has_grant_for_cbsd
    sas_core.Lifecycle.heartbeat_operation_allowed sas_core.Lifecycle.gate_state
    sas_core.Lifecycle.resolve_grant_state sas_core.Lifecycle.grant_state_of
    sas_core.Lifecycle.resolve_named sas_core.Lifecycle.grant_expired
    sas_core.Heartbeat.heartbeat_allowed sas_core.Heartbeat.is_code sas_core.Heartbeat.has_run_out
    sas_core.Heartbeat.grant_overlaps_wisp sas_core.Heartbeat.meas_step
    sas_core.Heartbeat.meas_error sas_core.Heartbeat.renew_or_authorize
    sas_core.Heartbeat.authorize_grant sas_core.Heartbeat.authorize_reply
beat-success = refl

heartbeat-Passed_example :
    Passed calm tables none beat 200_000_000 (heartbeat_one calm none tables 200_000_000 beat)
heartbeat-Passed_example = heartbeat-Passed calm tables none beat 200_000_000 beat-success

heartbeat_transmit_example :
    (((heartbeat_one calm none tables 200_000_000 beat).0.response_code ≡ success)
      × ((heartbeat_one calm none tables 200_000_000 beat).0.transmit_expire_time
          ≤ add_seconds 200_000_000 240))
    ⊎ (((heartbeat_one calm none tables 200_000_000 beat).0.response_code ≢ success)
        × ((heartbeat_one calm none tables 200_000_000 beat).0.transmit_expire_time
            ≡ trunc_sec 200_000_000 - 1000000))
heartbeat_transmit_example = heartbeat_transmit calm tables none beat 200_000_000

heartbeat-Framed_example : Framed tables beat (heartbeat_one calm none tables 200_000_000 beat)
heartbeat-Framed_example = heartbeat-Framed calm tables beat 200_000_000 none

abbrev giving_back : RelinquishmentRequest
giving_back = record { cbsd_id = some "fcc/1"; grant_id = some "grant/a" }

tables-UniquePk : UniquePk tables.grants
tables-UniquePk = (tt, tt)

tables-UniqueCbsd : UniqueCbsd tables.cbsds
tables-UniqueCbsd = (tt, tt)

heartbeat_authorizes_example :
    (cid : String) × (gid : String) × (g : Grant) × (g' : Grant) × (present beat.cbsd_id ≡ some cid)
    × (present beat.grant_id ≡ some gid)
    × (lock_grant_row tables.grants gid cid ≡ some g)
    × (lock_grant_row (heartbeat_one calm none tables 200_000_000 beat).1.grants gid cid ≡ some g')
    × ((is_live (resolve_grant_state g 200_000_000) ≡ false) ⊎ IsAuthorized g')
heartbeat_authorizes_example =
    heartbeat_authorizes calm tables none beat 200_000_000 tables-UniquePk beat-success

relinquish-Settled_example :
    Settled tables none giving_back (relinquish_one none tables 200_000_000 giving_back)
relinquish-Settled_example = relinquish-Settled tables none tables-UniquePk 200_000_000 giving_back

given_back :
    (relinquish_one none tables 200_000_000 giving_back).0
    ≡ resp success (some "fcc/1") (some "grant/a")
unfolding relinquish_one sas_core.Relinquishment.relinquish_ids present
    sas_core.Relinquishment.relinquish_locked sas_core.Auth.lock_cbsd_row
    sas_core.Auth.cbsd_certificate_mismatch sas_core.Relinquishment.relinquish_found
    sas_core.Auth.lock_grant_row sas_core.Relinquishment.relinquish_grant
    sas_core.Relinquishment.relinquish_row sas_core.Lifecycle.apply_grant_event
    sas_core.Lifecycle.evaluate_grant_transition sas_core.Lifecycle.resolve_grant_state
    sas_core.Lifecycle.grant_state_of sas_core.Lifecycle.resolve_named
    sas_core.Lifecycle.grant_expired
given_back = refl

given_cbsd : present giving_back.cbsd_id ≡ some "fcc/1"
unfolding present
given_cbsd = refl

given_grant : present giving_back.grant_id ≡ some "grant/a"
unfolding present
given_grant = refl

relinquish_once_example :
    relinquish_one none
      (relinquish_one none tables 200_000_000 giving_back).1
      300_000_000
      giving_back
    ≡ (
      resp invalid_param (some "fcc/1") none,
      (relinquish_one none tables 200_000_000 giving_back).1,
    )
relinquish_once_example =
    relinquish_once tables none 200_000_000 300_000_000 giving_back giving_back "fcc/1" "grant/a"
      tables-UniquePk given_back given_cbsd given_grant

deregister-Left_example :
    Left tables none
      (some "fcc/1")
      200_000_000
      (deregister_one none tables 200_000_000 (some "fcc/1"))
deregister-Left_example = deregister-Left tables none tables-UniqueCbsd 200_000_000 (some "fcc/1")

abbrev armed : Store
armed = enable_measurement_report_registration tables

flags_as_set_example :
    (admin_flag_set (set_admin_flag armed flag_meas_hbt) flag_meas_reg
      ≡ (flag_meas_hbt == flag_meas_reg) || admin_flag_set armed flag_meas_reg)
    × (admin_flag_set (clear_admin_flags armed flag_meas_hbt) flag_meas_reg
        ≡ not (flag_meas_hbt == flag_meas_reg) && admin_flag_set armed flag_meas_reg)
flags_as_set_example = flags_as_set armed flag_meas_hbt flag_meas_reg
