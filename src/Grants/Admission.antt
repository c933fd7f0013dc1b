-- ===== src/Grants/Admission.antt =====
-- services/grant_service.py: the checks under the locks, the new row, and the batch.
use sas_core.Prelude.{
  ℕ, String, Bool, false, ◌&&◌, ◌||◌, not, Option, none, some, List, [], ◌∷◌, ◌++◌, any, keep, min,
  if◌then◌else◌, ◌==◌, string_eq,
}
use sas_core.Codes.{success, missing_param, invalid_param, interference, grant_conflict}
use sas_core.Clock.{trunc_sec, add_seconds}
use sas_core.Records.{Cbsd, Grant, AuthContext}
use sas_core.Store.{Store, Checks, Range}
use sas_core.Auth.{cbsd_certificate_mismatch, lock_cbsd_row, peer_has_grant_for_cbsd}
use sas_core.Lifecycle.{granted, grant_state_value}
use sas_core.Spectrum.{Result, ok, err, overlaps}
use sas_core.Renewal.{default_grant_duration_sec}
use sas_core.Heartbeat.{heartbeat_interval_sec}
use sas_core.Heartbeat.Window.{compute_transmit_expire_time}
use sas_core.Rows.{present, run_batch}
use sas_core.Grants.Channel.{ChannelChoice}
use sas_core.Grants.Proposal.{GrantRequest, GrantReply, refusal, Proposal, propose}

unfoldable pub active_grants : List Grant → String → List Grant
active_grants gs cid = keep (λ (g : Grant). g.cbsd_id == cid && not g.terminated) gs

-- The ranges granted earlier in the batch, with their CBSD.
abbrev pub Pending : Type 0
Pending = List (String × Range)

unfoldable pub has_freq_conflict : List Grant → Range → Pending → String → Bool
unfolding overlaps
has_freq_conflict existing r pending cid =
    any (λ (g : Grant). overlaps g.low_frequency g.high_frequency r.0 r.1) existing
    || any (λ (p : String × Range). p.0 == cid && overlaps p.1.0 p.1.1 r.0 r.1) pending

unfoldable pub expire_for : Option ℕ → ℕ → ℕ
expire_for none now = add_seconds now default_grant_duration_sec
expire_for (some exp) now = min (add_seconds now default_grant_duration_sec) exp

-- `pal_id` where it is not empty, as `build_auth_context` keeps it
unfoldable pub build_auth_context : ChannelChoice → AuthContext
build_auth_context ch = record {
  channel_type = some ch.channel_type;
  pal_id = present ch.pal_id;
  pal_license_expiration = ch.license_exp;
}

unfoldable pub new_grant : Checks → Store → Cbsd → String → GrantRequest → Proposal → ℕ → Grant
new_grant env db c cid req p now =
    let until = expire_for p.channel.license_exp now in
    record {
      pk = req.new_pk;
      grant_id = req.new_grant_id;
      cbsd_pk = c.pk;
      cbsd_id = cid;
      channel_type = p.channel.channel_type;
      low_frequency = p.frequency.0;
      high_frequency = p.frequency.1;
      max_eirp = some p.max_eirp;
      grant_expire_time = until;
      heartbeat_interval = heartbeat_interval_sec;
      transmit_expire_time =
          some (compute_transmit_expire_time env db c until p.frequency.0 p.frequency.1 now);
      authorized = false;
      meas_report_requested = false;
      terminated = false;
      lifecycle_state = grant_state_value granted;
      stamp = db.sync;
      auth_context = some (build_auth_context p.channel);
    }

unfoldable pub grant_reply : String → Grant → GrantReply
grant_reply cid g = record {
  response_code = success;
  cbsd_id = some cid;
  grant_id = some g.grant_id;
  grant_expire_time = some (trunc_sec g.grant_expire_time);
  transmit_expire_time = g.transmit_expire_time;
  heartbeat_interval = some heartbeat_interval_sec;
  channel_type = some g.channel_type;
}

unfoldable pub insert_grant : Store → Grant → Store
insert_grant db g = record db { grants = db.grants ++ (g ∷ []) }

abbrev pub BatchState : Type 0
BatchState = Store × Pending

unfoldable pub admit : BatchState → String → Grant → GrantReply × BatchState
admit st cid g =
    (grant_reply cid g, (insert_grant st.0 g, (cid, (g.low_frequency, g.high_frequency)) ∷ st.1))

-- The checks under the locks, on the rows read again.
unfoldable pub grant_locked :
    Checks
    → BatchState
    → Option String
    → String
    → GrantRequest
    → ℕ
    → Proposal
    → Option Cbsd
    → GrantReply × BatchState
grant_locked env st hash cid req now p none = (refusal invalid_param none, st)
grant_locked env st hash cid req now p (some c) =
    if cbsd_certificate_mismatch c hash
    then (refusal invalid_param none, st)
    else if has_freq_conflict (active_grants st.0.grants cid) p.frequency st.1 cid
    then (refusal grant_conflict (some cid), st)
    else if peer_has_grant_for_cbsd env st.0 c
    then (refusal grant_conflict (some cid), st)
    else if env.violates_iap st.0 c p.frequency p.max_eirp
    then (refusal interference (some cid), st)
    else admit st cid (new_grant env st.0 c cid req p now)

unfoldable pub grant_proposed :
    Checks
    → BatchState
    → Option String
    → String
    → GrantRequest
    → ℕ
    → Result Proposal
    → GrantReply × BatchState
grant_proposed env st hash cid req now (err code) = (refusal code (some cid), st)
grant_proposed env st hash cid req now (ok p) =
    grant_locked env st hash cid req now p (lock_cbsd_row st.0.cbsds cid)

unfoldable pub grant_known :
    Checks
    → BatchState
    → Option String
    → String
    → GrantRequest
    → ℕ
    → Option Cbsd
    → GrantReply × BatchState
grant_known env st hash cid req now none = (refusal invalid_param none, st)
grant_known env st hash cid req now (some c) =
    if cbsd_certificate_mismatch c hash
    then (refusal invalid_param none, st)
    else grant_proposed env st hash cid req now (propose env st.0 c req)

unfoldable pub grant_id_given :
    Checks → BatchState → Option String → GrantRequest → ℕ → Option String → GrantReply × BatchState
grant_id_given env st hash req now none = (refusal missing_param none, st)
grant_id_given env st hash req now (some cid) =
    grant_known env st hash cid req now (lock_cbsd_row st.0.cbsds cid)

unfoldable pub grant_one :
    Checks → Option String → BatchState → ℕ → GrantRequest → GrantReply × BatchState
grant_one env hash st now req = grant_id_given env st hash req now (present req.cbsd_id)

-- The replies, the tables and the ranges granted.
unfoldable pub process_grant :
    Checks → Store → Option String → List (ℕ × GrantRequest) → List GrantReply × BatchState
process_grant env db hash reqs = run_batch (grant_one env hash) (db, []) reqs
