-- ===== src/Heartbeat/Authorized.antt =====
-- services/heartbeat_service.py: the row after a heartbeat that was answered with success.
use mathlib.Core.Bool.{true≢false}
use sas_core.Prelude.{
  ℕ, ◌<◌, String, Bool, true, false, ◌≡◌, ap, ◌⊎◌, inl, inr, refl, sym, ◌∙◌, ap₂, subst, Option,
  some, [], if◌then◌else◌, Bool-cases, ◌==◌, string_eq, arith,
}
use sas_core.Clock.{trunc_sec}
use sas_core.Codes.{success}
use sas_core.Records.{Cbsd, Grant}
use sas_core.Store.{Store, Checks}
use sas_core.Auth.{lock_grant_row}
use sas_core.Lifecycle.{
  authorized, authorize, grant_state_value, grant_state_of, is_live, grant_expired, resolve_column,
  resolve_grant_state, grant_transitions, missing_required_fields, Payload, apply_grant_state,
  sync_flags, apply_grant_event,
}
use sas_core.Lifecycle.Applied.{SameKeys, commit_accepted, live_not_past}
use sas_core.Renewal.{apply_renewal}
use sas_core.Renewal.Applied.{apply_renewal_effect}
use sas_core.Renewal.Window.{compute_renewal_window, renewal_whole}
use sas_core.Rows.{save_grant}
use sas_core.Rows.Saved.{UniquePk, lock-replace}
use sas_core.Heartbeat.Window.{compute_transmit_expire_time}
use sas_core.Heartbeat.Authorize.{asks_report, authorize_row, authorize_grant}
use sas_core.Heartbeat.Handler.{commit_row, heartbeat_one}
use sas_core.Heartbeat.Success.{Renewed, heartbeat-Passed}
use sas_core.Heartbeat.Frame.{authorize_row-keys, renewal-keys}
use sas_core.Rows.{present}
use sas_core.Heartbeat.Reply.{HeartbeatRequest, HeartbeatReply, authorize_payload}
use sas_core.Heartbeat.Live.{nonempty, payload_complete, live_authorizes, column_same}

-- The column and the flags of an authorized grant.
abbrev pub IsAuthorized : Grant → Type 0
IsAuthorized g =
    (g.lifecycle_state ≡ grant_state_value authorized)
    × (g.authorized ≡ true)
    × (g.terminated ≡ false)

state-IsAuthorized : (g : Grant) → IsAuthorized (apply_grant_state g authorized)
unfolding apply_grant_state sync_flags
state-IsAuthorized g = (refl, refl, refl)

event-IsAuthorized :
    (g : Grant) (p : Payload) (now : ℕ)
    → missing_required_fields p (grant_transitions authorize).required_fields ≡ []
    → is_live (resolve_grant_state g now) ≡ true
    → IsAuthorized (apply_grant_event g authorize p now).1
unfolding apply_grant_event
event-IsAuthorized g p now m h =
    subst IsAuthorized
      (sym (
        commit_accepted g authorize (resolve_grant_state g now) p authorized
          (live_authorizes (resolve_grant_state g now) p m h)))
      (state-IsAuthorized g)

same_status :
    (a b : Grant) (now : ℕ)
    → a.lifecycle_state ≡ b.lifecycle_state
    → a.terminated ≡ b.terminated
    → a.authorized ≡ b.authorized
    → grant_expired a now ≡ grant_expired b now
    → resolve_grant_state a now ≡ resolve_grant_state b now
unfolding resolve_grant_state
same_status a b now l t u e =
    ap₂ (λ x y. resolve_column a (grant_state_of x) y) l e
    ∙ column_same a b (grant_state_of b.lifecycle_state) (grant_expired b now) t u

not_expired :
    (g : Grant) (now t : ℕ)
    → g.grant_expire_time ≡ t
    → trunc_sec t ≡ t
    → trunc_sec now < t
    → grant_expired g now ≡ false
unfolding grant_expired
not_expired g now t e w h = ground arith

-- A renewal leaves a live grant in its state.
renewed_live :
    (db : Store) (g : Grant) (now : ℕ)
    → (apply_renewal db g now).0.is_ok ≡ true
    → is_live (resolve_grant_state g now) ≡ true
    → is_live (resolve_grant_state (apply_renewal db g now).1 now) ≡ true
renewed_live db g now fine live = elim (apply_renewal_effect db g now) [
  | inl (no_op, code, is_g) ↦ absurd (true≢false (sym fine ∙ no_op))
  | inr (done, (t, e, (kept, context))) ↦
      let (l, ahead, future, near, cap_rule) = compute_renewal_window db g now t e in
      let now_open =
        not_expired (apply_renewal db g now).1 now t (ap (λ (x : Grant). x.grant_expire_time) kept)
          (renewal_whole db g now t e) future in
      subst (λ s. is_live s ≡ true)
        (sym (
          same_status (apply_renewal db g now).1 g now (ap (λ (x : Grant). x.lifecycle_state) kept)
            (ap (λ (x : Grant). x.terminated) kept) (ap (λ (x : Grant). x.authorized) kept)
            (now_open ∙ sym (live_not_past g now live))))
        live
]

row_live :
    (env : Checks) (db : Store) (c : Cbsd) (g row : Grant) (req : HeartbeatRequest)
    (cid gid op : String) (now : ℕ)
    → Renewed env db c g req cid gid op now row
    → is_live (resolve_grant_state g now) ≡ true
    → is_live (resolve_grant_state row now) ≡ true
row_live env db c g row req cid gid op now (inl (no_renewal, is_g)) live =
    subst (λ x. is_live (resolve_grant_state x now) ≡ true) (sym is_g) live
row_live env db c g row req cid gid op now (inr (renewal, fine, is_row)) live =
    subst (λ x. is_live (resolve_grant_state x now) ≡ true) (sym is_row)
      (renewed_live db g now fine live)

row-keys :
    (env : Checks) (db : Store) (c : Cbsd) (g row : Grant) (req : HeartbeatRequest)
    (cid gid op : String) (now : ℕ)
    → Renewed env db c g req cid gid op now row
    → SameKeys row g
row-keys env db c g row req cid gid op now (inl (no_renewal, is_g)) =
    subst (λ x. SameKeys x g) (sym is_g) (refl, refl, refl, refl)
row-keys env db c g row req cid gid op now (inr (renewal, fine, is_row)) =
    subst (λ x. SameKeys x g) (sym is_row) (renewal-keys db g now)

timed_expired :
    (g : Grant) (tx now : ℕ)
    → grant_expired (record g { transmit_expire_time = some tx }) now ≡ grant_expired g now
unfolding grant_expired
timed_expired g tx now = refl

asked-IsAuthorized :
    (b : Bool) (g : Grant)
    → IsAuthorized g
    → IsAuthorized (if b then record g { meas_report_requested = true } else g)
asked-IsAuthorized true g h = h
asked-IsAuthorized false g h = h

authorize_row-IsAuthorized :
    (db : Store) (c : Cbsd) (g : Grant) (cid gid op : String) (tx now : ℕ)
    → (cid == "") ≡ false
    → (gid == "") ≡ false
    → (op == "") ≡ false
    → is_live (resolve_grant_state g now) ≡ true
    → IsAuthorized (authorize_row db c g cid gid op tx now)
unfolding authorize_row
authorize_row-IsAuthorized db c g cid gid op tx now pc pg po live =
    let timed : Grant = record g { transmit_expire_time = some tx } in
    let same : resolve_grant_state timed now ≡ resolve_grant_state g now =
      same_status timed g now refl refl refl (timed_expired g tx now) in
    asked-IsAuthorized (asks_report db c) _ (
      event-IsAuthorized timed (authorize_payload cid gid op) now
        (payload_complete cid gid op pc pg po) (subst (λ s. is_live s ≡ true) (sym same) live))

-- With unique primary keys: after a heartbeat that was answered with success, the row of the grant that it
-- names is found, and it is AUTHORIZED with its flags in step, unless the grant was in none of the states
-- GRANTED, AUTHORIZED and SUSPENDED before.
pub heartbeat_authorizes :
    (env : Checks) (db : Store) (hash : Option String) (req : HeartbeatRequest) (now : ℕ)
    → UniquePk db.grants
    → (heartbeat_one env hash db now req).0.response_code ≡ success
    → (cid : String) × (gid : String) × (g : Grant) × (g' : Grant) × (present req.cbsd_id
        ≡ some cid)
      × (present req.grant_id ≡ some gid)
      × (lock_grant_row db.grants gid cid ≡ some g)
      × (lock_grant_row (heartbeat_one env hash db now req).1.grants gid cid ≡ some g')
      × ((is_live (resolve_grant_state g now) ≡ false) ⊎ IsAuthorized g')
unfolding authorize_grant commit_row save_grant
heartbeat_authorizes env db hash req now u h =
    let (
      cid, gid, op, c, g, row, pc, pg, po, hc, hm, hg, fresh, alone, gate, calm, renewed, is_it,
    ) =
      heartbeat-Passed env db hash req now h in
    let tx =
      compute_transmit_expire_time env db c row.grant_expire_time row.low_frequency
        row.high_frequency now in
    let keys = authorize_row-keys db c row cid gid op tx now in
    let from = row-keys env db c g row req cid gid op now renewed in
    let found =
      lock-replace db.grants gid cid g (authorize_row db c row cid gid op tx now) hg u
        (keys.0 ∙ from.0) (keys.1 ∙ from.1) (keys.2 ∙ from.2) in
    (
      cid,
      gid,
      g,
      authorize_row db c row cid gid op tx now,
      pc,
      pg,
      hg,
      subst
          (λ (r : HeartbeatReply × Store).
            lock_grant_row r.1.grants gid cid ≡ some (authorize_row db c row cid gid op tx now))
          (sym is_it) found,
      elim (Bool-cases (is_live (resolve_grant_state g now))) [
        | inl live ↦ inr (
            authorize_row-IsAuthorized db c row cid gid op tx now (nonempty _ cid pc)
              (nonempty _ gid pg) (nonempty _ op po)
              (row_live env db c g row req cid gid op now renewed live))
        | inr ended ↦ inl ended
      ],
    )
