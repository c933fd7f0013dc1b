-- ===== src/Heartbeat/Transmit.antt =====
-- services/heartbeat_service.py: until when a CBSD may transmit.
use sas_core.Prelude.{
  ℕ, zero, suc, ◌-◌, ◌≤◌, String, Bool, true, false, ◌≡◌, ◌≢◌, ◌⊎◌, inl, inr, refl, sym, subst,
  Option, none, some, arith,
}
use sas_core.Codes.{success}
use sas_core.Clock.{trunc_sec, add_seconds}
use sas_core.Records.{Cbsd, Grant}
use sas_core.Store.{Store, Checks}
use sas_core.Lifecycle.{heartbeat_operation_allowed}
use sas_core.Renewal.{RenewalResult, apply_renewal}
use sas_core.Heartbeat.Window.{transmit_ends}
use sas_core.Heartbeat.Reply.{HeartbeatRequest, HeartbeatReply, gate_reply, past_tx}
use sas_core.Heartbeat.Authorize.{
  meas_error, authorize_grant, authorize_reply, after_renewal, renew_or_authorize, meas_step,
}
use sas_core.Heartbeat.Guards.{heartbeat_allowed, heartbeat_grant}
use sas_core.Heartbeat.Handler.{
  commit_row, with_rows, heartbeat_locked, heartbeat_ids, heartbeat_one,
}
use sas_core.Heartbeat.Success.{heartbeat-Passed}
use sas_core.Auth.{lock_cbsd_row, lock_grant_row}

is_success : (code : ℕ) → (code ≡ success) ⊎ (code ≢ success)
is_success zero = inl refl
is_success (suc n) = inr (omega arith)

-- Unless the answer is success, the transmission ended before now.
abbrev Stopped : ℕ → HeartbeatReply → Type 0
Stopped now r = r.response_code ≢ success → r.transmit_expire_time ≡ past_tx now

module _ (env : Checks) (db : Store) (req : HeartbeatRequest) (cid gid op : String) (now : ℕ) where
  authorize-Stopped :
      (c : Cbsd) (g : Grant) (b : Bool)
      → Stopped now (authorize_grant env db c g cid gid op b now).0
  unfolding authorize_grant authorize_reply
  authorize-Stopped c g b h = absurd (h refl)

  renewed-Stopped :
      (c : Cbsd) (p : RenewalResult × Grant)
      → Stopped now (after_renewal env db c cid gid op now p).0
  unfolding after_renewal
  renewed-Stopped c p h = let done = authorize-Stopped c p.1 true in ground arith

  renew-Stopped :
      (c : Cbsd) (g : Grant) (b : Bool)
      → Stopped now (renew_or_authorize env db c g cid gid op b now).0
  unfolding renew_or_authorize
  renew-Stopped c g false h = authorize-Stopped c g false h
  renew-Stopped c g true h = renewed-Stopped c (apply_renewal db g now) h

  meas-Stopped :
      (c : Cbsd) (g : Grant) (o : Option ℕ)
      → Stopped now (meas_step env db c g req cid gid op now o).0
  unfolding meas_step
  meas-Stopped c g none h = renew-Stopped c g req.grant_renew h
  meas-Stopped c g (some code) h = refl

  allowed-Stopped :
      (c : Cbsd) (g : Grant) → Stopped now (heartbeat_allowed env db c g req cid gid op now).0
  unfolding heartbeat_allowed
  allowed-Stopped c g h = let rest = meas-Stopped c g (meas_error c g req) in ground arith

  gate-Stopped : (g : Grant) (code : ℕ) → Stopped now (gate_reply g cid gid now code)
  unfolding gate_reply
  gate-Stopped g code h = ground arith

  grant-Stopped :
      (c : Cbsd) (g : Grant) → Stopped now (heartbeat_grant env db c g req cid gid op now).0
  unfolding heartbeat_grant
  grant-Stopped c g h =
      let gated = gate-Stopped g (heartbeat_operation_allowed g op now).response_code in
      let rest = allowed-Stopped c g in ground arith

  rows-Stopped :
      (a : Option Cbsd) (b : Option Grant) → Stopped now (with_rows env db req cid gid op now a b).0
  unfolding with_rows commit_row
  rows-Stopped (some c) (some g) h = grant-Stopped c g h
  rows-Stopped none b h = refl
  rows-Stopped (some c) none h = refl

  locked-Stopped :
      (hash : Option String) → Stopped now (heartbeat_locked env db hash req cid gid op now).0
  unfolding heartbeat_locked
  locked-Stopped hash h =
      let rest = rows-Stopped (lock_cbsd_row db.cbsds cid) (lock_grant_row db.grants gid cid) in
      ground arith

module _ (env : Checks) (db : Store) (hash : Option String) (req : HeartbeatRequest) (now : ℕ) where
  ids-Stopped : (a b o : Option String) → Stopped now (heartbeat_ids env db hash req now a b o).0
  unfolding heartbeat_ids
  ids-Stopped (some cid) (some gid) (some op) h = locked-Stopped env db req cid gid op now hash h
  ids-Stopped none b o h = refl
  ids-Stopped (some cid) none o h = refl
  ids-Stopped (some cid) (some gid) none h = refl

  one_stopped :
      (heartbeat_one env hash db now req).0.response_code ≢ success
      → (heartbeat_one env hash db now req).0.transmit_expire_time ≡ trunc_sec now - 1000000
  unfolding heartbeat_one past_tx
  one_stopped h = ids-Stopped _ _ _ h

  success_window :
      (heartbeat_one env hash db now req).0.response_code ≡ success
      → (heartbeat_one env hash db now req).0.transmit_expire_time ≤ add_seconds now 240
  unfolding authorize_grant authorize_reply commit_row
  success_window h =
      let (
        cid, gid, op, c, g, row, pc, pg, po, hc, hm, hg, fresh, alone, gate, calm, renewed, is_it,
      ) =
        heartbeat-Passed env db hash req now h in
      let reach =
        transmit_ends env db c row.grant_expire_time row.low_frequency row.high_frequency now in
      subst (λ (r : HeartbeatReply × Store). r.0.transmit_expire_time ≤ add_seconds now 240)
        (sym is_it) (ground arith)

  -- A heartbeat either is answered with success and lets the CBSD transmit for at most 240 seconds from the
  -- clock reading, or it is not and names a transmission time in the past, a second before the reading.
  pub heartbeat_transmit :
      (((heartbeat_one env hash db now req).0.response_code ≡ success)
        × ((heartbeat_one env hash db now req).0.transmit_expire_time ≤ add_seconds now 240))
      ⊎ (((heartbeat_one env hash db now req).0.response_code ≢ success)
          × ((heartbeat_one env hash db now req).0.transmit_expire_time ≡ trunc_sec now - 1000000))
  heartbeat_transmit = elim (is_success (heartbeat_one env hash db now req).0.response_code) [
    | inl h ↦ inl (h, success_window h)
    | inr h ↦ inr (h, one_stopped h)
  ]
