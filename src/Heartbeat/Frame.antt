-- ===== src/Heartbeat/Frame.antt =====
-- services/heartbeat_service.py: what a heartbeat leaves alone.
use sas_core.Prelude.{
  ℕ, String, Bool, true, false, not, ◌≡◌, ap, ◌⊎◌, inl, inr, refl, sym, ◌∙◌, subst, Option, none,
  some, if◌then◌else◌, Bool-cases, arith,
}
use sas_core.Codes.{blacklisted, invalid_param, terminated_grant, suspended_grant}
use sas_core.Records.{Cbsd, Grant}
use sas_core.Store.{Store, Checks}
use sas_core.Auth.{is_cbsd_blacklisted, peer_has_grant_for_cbsd, lock_cbsd_row, lock_grant_row}
use sas_core.Lifecycle.{
  terminated, terminate, expire, authorize, apply_grant_event, heartbeat_operation_allowed,
}
use sas_core.Lifecycle.Applied.{SameKeys, apply_state-keys, event-keys}
use sas_core.Renewal.{RenewalResult, apply_renewal}
use sas_core.Renewal.Applied.{apply_renewal_effect}
use sas_core.Rows.{save_grant, present}
use sas_core.Heartbeat.Window.{compute_transmit_expire_time}
use sas_core.Heartbeat.Reply.{
  HeartbeatRequest, HeartbeatReply, deny, suspend_reply, terminate_now, persist_federal_termination,
  grant_overlaps_wisp, gate_reply, ids_payload, authorize_payload,
}
use sas_core.Heartbeat.Authorize.{
  authorize_row, authorize_grant, after_renewal, renew_or_authorize, meas_step, meas_error,
}
use sas_core.Heartbeat.Guards.{is_code, has_run_out, heartbeat_allowed, heartbeat_grant}
use sas_core.Heartbeat.Handler.{
  commit_row, with_rows, wrong_certificate, heartbeat_locked, heartbeat_ids, heartbeat_one,
}

-- The row that is left has the keys of the row that was found.
data Keeps (g : Grant) (r : HeartbeatReply × Grant) : Type 0 where
  keeps : SameKeys r.1 g → Keeps g r

Keeps-if :
    (g : Grant) (b : Bool) (p q : HeartbeatReply × Grant)
    → Keeps g p
    → Keeps g q
    → Keeps g (if b then p else q)
Keeps-if g true p q h k = h
Keeps-if g false p q h k = k

same : (g : Grant) → SameKeys g g
same g = (refl, refl, refl, refl)

federal-keys :
    (g : Grant) (cid gid : String) (now : ℕ)
    → SameKeys (persist_federal_termination g cid gid now) g
unfolding persist_federal_termination terminate_now
federal-keys g cid gid now =
    let done = event-keys g terminate (ids_payload cid gid) now in
    let forced =
      apply_state-keys (apply_grant_event g terminate (ids_payload cid gid) now).1 terminated in
    ground arith

pub authorize_row-keys :
    (db : Store) (c : Cbsd) (g : Grant) (cid gid op : String) (tx now : ℕ)
    → SameKeys (authorize_row db c g cid gid op tx now) g
unfolding authorize_row
authorize_row-keys db c g cid gid op tx now =
    let done =
      event-keys (record g { transmit_expire_time = some tx }) authorize
        (authorize_payload cid gid op) now in
    ground arith

pub renewal-keys : (db : Store) (g : Grant) (now : ℕ) → SameKeys (apply_renewal db g now).1 g
renewal-keys db g now = elim (apply_renewal_effect db g now) [
  | inl (no_op, code, is_g) ↦ subst (λ x. SameKeys x g) (sym is_g) (same g)
  | inr (fine, (t, e, (kept, context))) ↦ (
    ap (λ (x : Grant). x.pk) kept,
    ap (λ (x : Grant). x.grant_id) kept,
    ap (λ (x : Grant). x.cbsd_id) kept,
    ap (λ (x : Grant). x.cbsd_pk) kept,
  )
]

module _ (env : Checks) (db : Store) (c : Cbsd) (req : HeartbeatRequest) (cid gid op : String)
    (now : ℕ) where
  authorize-Keeps :
      (g row : Grant) (b : Bool)
      → SameKeys row g
      → Keeps g (authorize_grant env db c row cid gid op b now)
  unfolding authorize_grant
  authorize-Keeps g row b k =
      let done =
        authorize_row-keys db c row cid gid op
          (compute_transmit_expire_time env db c row.grant_expire_time row.low_frequency
            row.high_frequency now)
          now in
      keeps (done.0 ∙ k.0, done.1 ∙ k.1, done.2 ∙ k.2, done.3 ∙ k.3)

  renewed-Keeps :
      (g : Grant) (p : RenewalResult × Grant)
      → SameKeys p.1 g
      → Keeps g (after_renewal env db c cid gid op now p)
  unfolding after_renewal
  renewed-Keeps g p k =
      Keeps-if g (not p.0.is_ok) (deny p.0.response_code (some cid) (some gid) now, p.1)
        (authorize_grant env db c p.1 cid gid op true now) (keeps k) (authorize-Keeps g p.1 true k)

  renew-Keeps : (g : Grant) (b : Bool) → Keeps g (renew_or_authorize env db c g cid gid op b now)
  unfolding renew_or_authorize
  renew-Keeps g true = renewed-Keeps g (apply_renewal db g now) (renewal-keys db g now)
  renew-Keeps g false = authorize-Keeps g g false (same g)

  meas-Keeps : (g : Grant) (o : Option ℕ) → Keeps g (meas_step env db c g req cid gid op now o)
  unfolding meas_step
  meas-Keeps g (some code) = keeps (same g)
  meas-Keeps g none = renew-Keeps g req.grant_renew

  allowed-Keeps : (g : Grant) → Keeps g (heartbeat_allowed env db c g req cid gid op now)
  unfolding heartbeat_allowed terminate_now
  allowed-Keeps g =
      let federal = env.federal_code db c g in
      let over = terminate_now g cid gid now in
      let at_report = meas_step env db c g req cid gid op now (meas_error c g req) in
      let unsuspended =
        Keeps-if g (is_code federal suspended_grant) (suspend_reply g cid gid now, g) at_report
          (keeps (same g)) (meas-Keeps g (meas_error c g req)) in
      let no_wisp =
        Keeps-if g (grant_overlaps_wisp db g)
          (deny terminated_grant (some cid) (some gid) now, over.1) _
          (keeps (event-keys g terminate (ids_payload cid gid) now)) unsuspended in
      let in_time =
        Keeps-if g (has_run_out g now)
          (
            deny invalid_param (some cid) (some gid) now,
            (apply_grant_event g expire (ids_payload cid gid) now).1,
          )
          _ (keeps (event-keys g expire (ids_payload cid gid) now)) no_wisp in
      let no_federal =
        Keeps-if g (is_code federal terminated_grant)
          (
            deny terminated_grant (some cid) (some gid) now,
            persist_federal_termination g cid gid now,
          )
          _ (keeps (federal-keys g cid gid now)) in_time in
      Keeps-if g (env.overlaps_active_dpa db g) (suspend_reply g cid gid now, g) _ (keeps (same g))
        no_federal

  grant-Keeps : (g : Grant) → Keeps g (heartbeat_grant env db c g req cid gid op now)
  unfolding heartbeat_grant terminate_now
  grant-Keeps g =
      let over = terminate_now g cid gid now in
      let life = heartbeat_operation_allowed g op now in
      let gated =
        Keeps-if g (not life.is_ok) (gate_reply g cid gid now life.response_code, g) _
          (keeps (same g)) (allowed-Keeps g) in
      let alone =
        Keeps-if g (peer_has_grant_for_cbsd env db c)
          (deny terminated_grant (some cid) (some gid) now, over.1) _
          (keeps (event-keys g terminate (ids_payload cid gid) now)) gated in
      Keeps-if g (is_cbsd_blacklisted db c.fcc_id c.cbsd_serial_number)
        (deny blacklisted (some cid) (some gid) now, g) _ (keeps (same g)) alone

-- The tables are as they were, or one grant's row is replaced by one with its keys.
abbrev pub Framed : Store → HeartbeatRequest → HeartbeatReply × Store → Type 0
Framed db req r =
    (r.1 ≡ db)
    ⊎ ((cid : String) × (gid : String) × (present req.cbsd_id ≡ some cid)
        × (present req.grant_id ≡ some gid)
        × (g : Grant) × (g' : Grant) × (lock_grant_row db.grants gid cid ≡ some g)
        × SameKeys g' g
        × (r.1 ≡ save_grant db g'))

module _ (env : Checks) (db : Store) (req : HeartbeatRequest) (now : ℕ) where
  rows-Framed :
      (cid gid op : String) (a : Option Cbsd) (b : Option Grant)
      → present req.cbsd_id ≡ some cid
      → present req.grant_id ≡ some gid
      → lock_grant_row db.grants gid cid ≡ b
      → Framed db req (with_rows env db req cid gid op now a b)
  unfolding with_rows commit_row
  rows-Framed cid gid op (some c) (some g) pc pg h =
      elim (grant-Keeps env db c req cid gid op now g) [
        | keeps k ↦ inr (cid, gid, pc, pg, g, _, h, k, refl)
      ]
  rows-Framed cid gid op none b pc pg h = inl refl
  rows-Framed cid gid op (some c) none pc pg h = inl refl

  locked-Framed :
      (hash : Option String) (cid gid op : String)
      → present req.cbsd_id ≡ some cid
      → present req.grant_id ≡ some gid
      → Framed db req (heartbeat_locked env db hash req cid gid op now)
  unfolding heartbeat_locked
  locked-Framed hash cid gid op pc pg =
      elim (Bool-cases (wrong_certificate (lock_cbsd_row db.cbsds cid) hash)) [
        | inl m ↦ rw m (inl refl)
        | inr m ↦ rw m (rows-Framed cid gid op _ _ pc pg refl)
      ]

  ids-Framed :
      (hash a b o : Option String)
      → present req.cbsd_id ≡ a
      → present req.grant_id ≡ b
      → Framed db req (heartbeat_ids env db hash req now a b o)
  unfolding heartbeat_ids
  ids-Framed hash (some cid) (some gid) (some op) pc pg = locked-Framed hash cid gid op pc pg
  ids-Framed hash none b o pc pg = inl refl
  ids-Framed hash (some cid) none o pc pg = inl refl
  ids-Framed hash (some cid) (some gid) none pc pg = inl refl

  -- Whatever it answers, a heartbeat changes no table but that of the grants, and there it saves at most one
  -- row, of the grant that the request names, with the keys that the row had.
  pub heartbeat-Framed : (hash : Option String) → Framed db req (heartbeat_one env hash db now req)
  unfolding heartbeat_one
  heartbeat-Framed hash = ids-Framed hash _ _ _ refl refl
