-- ===== src/Heartbeat/Success.antt =====
-- services/heartbeat_service.py: which guards a heartbeat that is answered with success has passed.
use sas_core.Prelude.{
  ℕ, String, Bool, true, false, ◌≡◌, ◌≢◌, ◌⊎◌, inl, inr, refl, sym, ◌∙◌, ap, subst, Option, none,
  some, Bool-cases, arith,
}
use mathlib.Core.Bool.{true≢false}
use sas_core.Codes.{success, invalid_param, terminated_grant, suspended_grant}
use sas_core.Records.{Cbsd, Grant}
use sas_core.Store.{Store, Checks}
use sas_core.Auth.{
  cbsd_certificate_mismatch, is_cbsd_blacklisted, lock_cbsd_row, lock_grant_row,
  peer_has_grant_for_cbsd,
}
use sas_core.Lifecycle.{heartbeat_operation_allowed, gate_state, resolve_grant_state}
use sas_core.Renewal.{apply_renewal}
use sas_core.Renewal.Applied.{apply_renewal_effect}
use sas_core.Rows.{present}
use sas_core.Heartbeat.Refusals.{gate_refused, gate_denied, report_code}
use sas_core.Heartbeat.Reply.{HeartbeatRequest, HeartbeatReply, grant_overlaps_wisp}
use sas_core.Heartbeat.Authorize.{
  meas_error, authorize_grant, after_renewal, renew_or_authorize, meas_step,
}
use sas_core.Heartbeat.Guards.{is_code, has_run_out, heartbeat_allowed, heartbeat_grant}
use sas_core.Heartbeat.Handler.{
  commit_row, with_rows, wrong_certificate, heartbeat_locked, heartbeat_ids, heartbeat_one,
}

module _ (env : Checks) (db : Store) (c : Cbsd) (g : Grant) (req : HeartbeatRequest)
    (cid gid op : String) (now : ℕ) where
  -- The guards after the gate.
  abbrev pub Undisturbed : Type 0
  Undisturbed =
      (env.overlaps_active_dpa db g ≡ false)
      × (is_code (env.federal_code db c g) terminated_grant ≡ false)
      × (has_run_out g now ≡ false)
      × (grant_overlaps_wisp db g ≡ false)
      × (is_code (env.federal_code db c g) suspended_grant ≡ false)

  allowed_success :
      (heartbeat_allowed env db c g req cid gid op now).0.response_code ≡ success
      → Undisturbed
        × (heartbeat_allowed env db c g req cid gid op now
            ≡ meas_step env db c g req cid gid op now (meas_error c g req))
  unfolding heartbeat_allowed
  allowed_success h = ground arith

  meas_refused : (code : ℕ) → meas_error c g req ≡ some code → code ≢ success
  unfolding meas_error
  meas_refused code h = let bad = report_code req.meas_report false code in ground arith

  -- The row that is authorized: as it was found, or as a successful renewal left it.
  abbrev pub Renewed : Grant → Type 0
  Renewed row =
      ((req.grant_renew ≡ false) × (row ≡ g))
      ⊎ ((req.grant_renew ≡ true)
          × ((apply_renewal db g now).0.is_ok ≡ true)
          × (row ≡ (apply_renewal db g now).1))

  renewal_refused :
      (apply_renewal db g now).0.is_ok ≡ false → (apply_renewal db g now).0.response_code ≢ success
  renewal_refused h = elim (apply_renewal_effect db g now) [
    | inl (no_op, code, same) ↦ code
    | inr (fine, rest) ↦ absurd (true≢false (sym fine ∙ h))
  ]

  renewal_success :
      (b : Bool)
      → req.grant_renew ≡ b
      → (renew_or_authorize env db c g cid gid op b now).0.response_code ≡ success
      → (row : Grant) × Renewed row
        × (renew_or_authorize env db c g cid gid op b now
            ≡ authorize_grant env db c row cid gid op b now)
  unfolding renew_or_authorize after_renewal
  renewal_success false e h = (g, inl (e, refl), refl)
  renewal_success true e h = elim (Bool-cases (apply_renewal db g now).0.is_ok) [
    | inl t ↦ ((apply_renewal db g now).1, inr (e, t, refl), rw t refl)
    | inr f ↦ absurd (renewal_refused f (rw f at h))
  ]

  meas_success :
      (o : Option ℕ)
      → meas_error c g req ≡ o
      → (meas_step env db c g req cid gid op now o).0.response_code ≡ success
      → (row : Grant) × Renewed row
        × (meas_step env db c g req cid gid op now o
            ≡ authorize_grant env db c row cid gid op req.grant_renew now)
  unfolding meas_step
  meas_success none e h = renewal_success req.grant_renew refl h
  meas_success (some code) e h = absurd (meas_refused code e h)

  grant_success :
      (heartbeat_grant env db c g req cid gid op now).0.response_code ≡ success
      → (is_cbsd_blacklisted db c.fcc_id c.cbsd_serial_number ≡ false)
        × (peer_has_grant_for_cbsd env db c ≡ false)
        × ((heartbeat_operation_allowed g op now).is_ok ≡ true)
        × (heartbeat_grant env db c g req cid gid op now
            ≡ heartbeat_allowed env db c g req cid gid op now)
  unfolding heartbeat_grant heartbeat_operation_allowed
  grant_success h =
      let refused = gate_refused (resolve_grant_state g now) op in
      let denied =
        gate_denied g cid gid now (gate_state (resolve_grant_state g now) op).response_code in
      ground arith

-- The guards that a heartbeat passes before it is answered with success, and the row that it authorizes.
module _ (env : Checks) (db : Store) (hash : Option String) (req : HeartbeatRequest) (now : ℕ) where
  abbrev pub Passed : HeartbeatReply × Store → Type 0
  Passed r =
      (cid : String) × (gid : String) × (op : String) × (c : Cbsd) × (g : Grant) × (row : Grant)
      × (present req.cbsd_id ≡ some cid)
      × (present req.grant_id ≡ some gid)
      × (present req.operation_state ≡ some op)
      × (lock_cbsd_row db.cbsds cid ≡ some c)
      × (cbsd_certificate_mismatch c hash ≡ false)
      × (lock_grant_row db.grants gid cid ≡ some g)
      × (is_cbsd_blacklisted db c.fcc_id c.cbsd_serial_number ≡ false)
      × (peer_has_grant_for_cbsd env db c ≡ false)
      × ((heartbeat_operation_allowed g op now).is_ok ≡ true)
      × Undisturbed env db c g req cid gid op now
      × Renewed env db c g req cid gid op now row
      × (r ≡ commit_row db (authorize_grant env db c row cid gid op req.grant_renew now))

  rows_success :
      (cid gid op : String) (a : Option Cbsd) (b : Option Grant)
      → present req.cbsd_id ≡ some cid
      → present req.grant_id ≡ some gid
      → present req.operation_state ≡ some op
      → lock_cbsd_row db.cbsds cid ≡ a
      → wrong_certificate a hash ≡ false
      → lock_grant_row db.grants gid cid ≡ b
      → (with_rows env db req cid gid op now a b).0.response_code ≡ success
      → Passed (with_rows env db req cid gid op now a b)
  unfolding with_rows wrong_certificate commit_row
  rows_success cid gid op (some c) (some g) pc pg po hc hm hg h =
      let (fresh, alone, gate, at_gate) = grant_success env db c g req cid gid op now h in
      let h' = subst (λ (r : HeartbeatReply × Grant). r.0.response_code ≡ success) at_gate h in
      let (calm, at_meas) = allowed_success env db c g req cid gid op now h' in
      let h'' = subst (λ (r : HeartbeatReply × Grant). r.0.response_code ≡ success) at_meas h' in
      let (row, renewed, at_row) = meas_success env db c g req cid gid op now _ refl h'' in
      (
        cid,
        gid,
        op,
        c,
        g,
        row,
        pc,
        pg,
        po,
        hc,
        hm,
        hg,
        fresh,
        alone,
        gate,
        calm,
        renewed,
        ap (commit_row db) (at_gate ∙ at_meas ∙ at_row),
      )
  rows_success cid gid op none b pc pg po hc hm hg h = ground arith
  rows_success cid gid op (some c) none pc pg po hc hm hg h = ground arith

  locked_success :
      (cid gid op : String)
      → present req.cbsd_id ≡ some cid
      → present req.grant_id ≡ some gid
      → present req.operation_state ≡ some op
      → (heartbeat_locked env db hash req cid gid op now).0.response_code ≡ success
      → Passed (heartbeat_locked env db hash req cid gid op now)
  unfolding heartbeat_locked
  locked_success cid gid op pc pg po h =
      elim (Bool-cases (wrong_certificate (lock_cbsd_row db.cbsds cid) hash)) [
        | inl m ↦ absurd (denied_code (rw m at h))
        | inr m ↦ rw m (rows_success cid gid op _ _ pc pg po refl m refl (rw m at h))
      ]
    where
      denied_code : invalid_param ≢ success
      denied_code = omega arith

  ids_success :
      (a b o : Option String)
      → present req.cbsd_id ≡ a
      → present req.grant_id ≡ b
      → present req.operation_state ≡ o
      → (heartbeat_ids env db hash req now a b o).0.response_code ≡ success
      → Passed (heartbeat_ids env db hash req now a b o)
  unfolding heartbeat_ids
  ids_success (some cid) (some gid) (some op) pc pg po h = locked_success cid gid op pc pg po h
  ids_success none b o pc pg po h = ground arith
  ids_success (some cid) none o pc pg po h = ground arith
  ids_success (some cid) (some gid) none pc pg po h = ground arith

  -- A heartbeat that is answered with success has passed these guards: its three fields are given, the CBSD
  -- and the grant exist, the certificate matches, the CBSD is not blacklisted and has no active grant at a
  -- peer, the lifecycle gate is open, no active DPA, federal decision or WISP overlaps the grant, and the
  -- grant has not run out; then it is exactly the authorization of that row, as found or as renewed.
  pub heartbeat-Passed :
      (heartbeat_one env hash db now req).0.response_code ≡ success
      → Passed (heartbeat_one env hash db now req)
  unfolding heartbeat_one
  heartbeat-Passed h = ids_success _ _ _ refl refl refl h
