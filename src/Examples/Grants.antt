-- ===== src/Examples/Grants.antt =====
-- The lifecycle of the grant, its renewal, and grant requests.
use sas_core.Prelude.{◌<◌}
use sas_core.Store.{inside, outside, indeterminate}
use sas_core.Prelude.{
  ℕ, true, false, ◌≡◌, ◌≢◌, ◌⊎◌, ◌↔◌, ◌≤◌, ◌<◌, refl, none, some, [], ◌∷◌, ◌++◌, arith,
}
use sas_core.Prelude.Int.{pos}
use sas_core.Codes.{success}
use sas_core.Clock.{trunc_sec, add_seconds}
use sas_core.Records.{Grant}
use sas_core.Spectrum.{overlaps, range, int}
use sas_core.MeasReport.{no_report}
use sas_core.Lifecycle.{
  GrantState, relinquished, authorized, requested, granted, relinquish, authorize, terminate,
  Payload, apply_grant_event, apply_grant_state, resolve_grant_state, resolve_column, resolve_named,
  is_live, is_terminal, grant_expired, grant_state_of, grant_transitions, missing_required_fields,
  evaluate_grant_transition,
}
use sas_core.Lifecycle.Legal.{Legal, evaluate-Legal}
use sas_core.Lifecycle.Terminal.{terminal_forever, run_events, History}
use sas_core.Lifecycle.Applied.{resolve-apply_event}
use sas_core.Lifecycle.Flags.{InSync, apply_event-InSync}
use sas_core.Renewal.{
  compute_renewal, default_grant_duration_sec, is_pal_channel, pal_license_valid,
  resolve_pal_license_cap, apply_renewal,
}
use sas_core.Renewal.Window.{compute_renewal_window}
use sas_core.Renewal.Applied.{apply_renewal_effect, Extended}
use sas_core.Heartbeat.Window.{Ends, compute_transmit_expire_time, transmit_window}
use sas_core.Grants.{GrantRequest, grant_one, process_grant, BatchState}
use sas_core.Grants.Sound.{Decided, grant-Decided}
use sas_core.Grants.Bounds.{Issued, grant-Issued}
use sas_core.Grants.Disjoint.{Disjoint, process_grant-Disjoint}
use sas_core.Examples.Data.{device, held, tables, calm}

-- The grant after it was given back.
abbrev returned : Grant
returned = record held { lifecycle_state = "RELINQUISHED"; terminated = true }

abbrev history : History
history = (authorize, [], 2_000_000) ∷ (terminate, [], 3_000_000) ∷ []

returned-terminal : is_terminal (resolve_grant_state returned 1_000_000) ≡ true
unfolding is_terminal resolve_grant_state grant_state_of resolve_named
returned-terminal = refl

terminal_forever_example :
    resolve_grant_state (run_events returned history) 4_000_000
    ≡ resolve_grant_state returned 1_000_000
unfolding sas_core.Lifecycle.is_approve
terminal_forever_example =
    terminal_forever returned 1_000_000 4_000_000 history returned-terminal
      (omega arith, refl, (omega arith, refl, omega arith))

abbrev ids : Payload
ids = ("cbsdId", "fcc/1") ∷ ("grantId", "grant/a") ∷ []

ids_complete : missing_required_fields ids (grant_transitions relinquish).required_fields ≡ []
unfolding missing_required_fields grant_transitions
ids_complete = refl

evaluate-Legal_example :
    ((evaluate_grant_transition relinquish granted ids).to_state ≡ some relinquished)
    ↔ Legal relinquish granted relinquished
evaluate-Legal_example = evaluate-Legal relinquish granted relinquished ids ids_complete

held-relinquished : (apply_grant_event held relinquish ids 1_000_000).0.to_state ≡ some relinquished
unfolding apply_grant_event evaluate_grant_transition resolve_grant_state grant_state_of
    resolve_named grant_expired
held-relinquished = refl

resolve-apply_event_example :
    resolve_grant_state (apply_grant_event held relinquish ids 1_000_000).1 1_000_000 ≡ relinquished
unfolding sas_core.Lifecycle.is_approve
resolve-apply_event_example =
    resolve-apply_event held relinquish ids 1_000_000 relinquished refl held-relinquished

held-InSync : InSync held
unfolding grant_state_of is_terminal
held-InSync = record { ended = λ s e. ground arith; on = λ e. ground arith; off = λ e. refl }

apply_event-InSync_example : InSync (apply_grant_event held relinquish ids 1_000_000).1
apply_event-InSync_example = apply_event-InSync held relinquish ids 1_000_000 held-InSync

held-renewed : (compute_renewal tables held 200_000_000).new_expire ≡ some 1_100_000_000
unfolding compute_renewal is_terminal resolve_grant_state grant_state_of resolve_named grant_expired
    is_pal_channel sas_core.Renewal.upper_is sas_core.Renewal.or_text
    sas_core.Renewal.load_auth_context
held-renewed = refl

compute_renewal_window_example :
    (is_terminal (resolve_grant_state held (trunc_sec 200_000_000)) ≡ false)
    × (trunc_sec 200_000_000 < trunc_sec held.grant_expire_time)
    × (trunc_sec 200_000_000 < 1_100_000_000)
    × (1_100_000_000 ≤ add_seconds (trunc_sec 200_000_000) default_grant_duration_sec)
    × ((is_pal_channel held ≡ false)
        ⊎ ((pal_license_valid tables held ≢ some false)
            × (c : ℕ) × (resolve_pal_license_cap tables held ≡ some c)
            × (1_100_000_000 ≤ c)))
compute_renewal_window_example =
    compute_renewal_window tables held 200_000_000 1_100_000_000 held-renewed

apply_renewal_effect_example :
    (((apply_renewal tables held 200_000_000).0.is_ok ≡ false)
      × ((apply_renewal tables held 200_000_000).0.response_code ≢ success)
      × ((apply_renewal tables held 200_000_000).1 ≡ held))
    ⊎ (((apply_renewal tables held 200_000_000).0.is_ok ≡ true)
        × ((t : ℕ) × ((compute_renewal tables held 200_000_000).new_expire ≡ some t)
            × Extended tables held t (apply_renewal tables held 200_000_000).1))
apply_renewal_effect_example = apply_renewal_effect tables held 200_000_000

transmit_window_example :
    ((3_550_000_000 < 3_650_000_000)
      × (3_550_000_000 < 3_560_000_000)
      × ((calm.dpa_neighborhood tables device ≡ inside)
          ⊎ (calm.dpa_neighborhood tables device ≡ indeterminate))
      × Ends 240 1_000_000_000 200_000_000 (
          compute_transmit_expire_time calm tables device 1_000_000_000 3_550_000_000 3_560_000_000
            200_000_000))
    ⊎ (((3_650_000_000 ≤ 3_550_000_000)
          ⊎ (3_560_000_000 ≤ 3_550_000_000)
          ⊎ (calm.dpa_neighborhood tables device ≡ outside))
        × Ends 60 1_000_000_000 200_000_000 (
            compute_transmit_expire_time calm tables device 1_000_000_000 3_550_000_000
              3_560_000_000 200_000_000))
transmit_window_example =
    transmit_window calm tables device 1_000_000_000 3_550_000_000 3_560_000_000 200_000_000

-- A request for the next 10 MHz, at 10 dBm/MHz.
abbrev wanted : GrantRequest
wanted = record {
  cbsd_id = some "fcc/1";
  meas_report = no_report;
  operation_param = some (record {
    max_eirp = int (pos 10000);
    frequency_range = range (int (pos 3_560_000_000)) (int (pos 3_570_000_000));
  });
  new_grant_id = "grant/b";
  new_pk = 8;
}

abbrev idle : BatchState
idle = (tables, [])

held-Disjoint : Disjoint tables.grants
held-Disjoint = (tt, tt)

process_grant-Disjoint_example :
    Disjoint
      (process_grant calm tables none
        ((200_000_000, wanted) ∷ (201_000_000, wanted) ∷ [])).1.0.grants
process_grant-Disjoint_example =
    process_grant-Disjoint calm tables none ((200_000_000, wanted) ∷ (201_000_000, wanted) ∷ [])
      held-Disjoint

grant-Decided_example :
    Decided calm none idle 200_000_000 wanted (grant_one calm none idle 200_000_000 wanted)
grant-Decided_example = grant-Decided calm none idle 200_000_000 wanted

wanted-granted : (grant_one calm none idle 200_000_000 wanted).0.grant_id ≡ some "grant/b"
unfolding grant_one sas_core.Grants.grant_id_given sas_core.Rows.present sas_core.Grants.grant_known
    sas_core.Auth.lock_cbsd_row sas_core.Auth.cbsd_certificate_mismatch
    sas_core.Grants.grant_proposed sas_core.Grants.propose sas_core.Auth.is_cbsd_blacklisted
    sas_core.Grants.meas_check sas_core.Grants.meas_code sas_core.Auth.admin_flag_set
    sas_core.Grants.required_param sas_core.Grants.parse_freq sas_core.Spectrum.check_fields
    sas_core.Grants.parse_eirp sas_core.Grants.Channel.max_allowed_eirp_mhz
    sas_core.Grants.Channel.fcc_max_eirp sas_core.Renewal.upper_is sas_core.Renewal.or_text
    sas_core.Grants.Channel.resolve_channel sas_core.Grants.Channel.ppa_pal_context
    sas_core.Grants.Channel.choose_covering sas_core.Grants.blocked_at sas_core.Grants.or_denied
    sas_core.Grants.crosses_border sas_core.Grants.grant_locked sas_core.Grants.has_freq_conflict
    sas_core.Grants.active_grants sas_core.Auth.peer_has_grant_for_cbsd sas_core.Grants.admit
    sas_core.Grants.grant_reply sas_core.Grants.new_grant sas_core.Number.is_below
wanted-granted = refl

grant-Issued_example :
    (g : Grant) × (g.grant_id ≡ "grant/b")
    × ((grant_one calm none idle 200_000_000 wanted).1.0.grants ≡ tables.grants ++ (g ∷ []))
    × Issued calm idle 200_000_000 g
grant-Issued_example = grant-Issued calm none idle 200_000_000 wanted "grant/b" wanted-granted
