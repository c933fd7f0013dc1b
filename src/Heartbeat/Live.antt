-- ===== src/Heartbeat/Live.antt =====
-- services/heartbeat_service.py: AUTHORIZE with the fields that a heartbeat passes on.
use sas_core.Prelude.{
  String, Bool, true, false, ◌≡◌, inl, inr, refl, subst, Option, none, some, some-injective,
  none-ne-some, [], Bool-cases, ◌==◌, string_eq, arith,
}
use sas_core.Records.{Grant}
use sas_core.Lifecycle.{
  GrantState, authorized, authorize, is_live, resolve_column, resolve_flags, grant_transitions,
  missing_required_fields, Payload, check_grant, evaluate_grant_transition,
}
use sas_core.Rows.{present}
use sas_core.Heartbeat.Reply.{authorize_payload}

pub nonempty : (o : Option String) (s : String) → present o ≡ some s → (s == "") ≡ false
unfolding present
nonempty none s h = absurd (none-ne-some s h)
nonempty (some x) s h = elim (Bool-cases (x == "")) [
  | inl e ↦ absurd (none-ne-some s (rw e at h))
  | inr e ↦ subst (λ y. (y == "") ≡ false) (some-injective x s (rw e at h)) e
]

pub payload_complete :
    (cid gid op : String)
    → (cid == "") ≡ false
    → (gid == "") ≡ false
    → (op == "") ≡ false
    → missing_required_fields
        (authorize_payload cid gid op)
        (grant_transitions authorize).required_fields
      ≡ []
unfolding missing_required_fields grant_transitions
payload_complete cid gid op a b c = rw (a, b, c) refl

live_checked :
    (s : GrantState)
    → is_live s ≡ true
    → (check_grant authorize (grant_transitions authorize) s []).to_state ≡ some authorized
unfolding check_grant grant_transitions is_live
live_checked s h = ground arith

pub live_authorizes :
    (s : GrantState) (p : Payload)
    → missing_required_fields p (grant_transitions authorize).required_fields ≡ []
    → is_live s ≡ true
    → (evaluate_grant_transition authorize s p).to_state ≡ some authorized
unfolding evaluate_grant_transition
live_authorizes s p m h = rw m (live_checked s h)

pub column_same :
    (a b : Grant) (o : Option GrantState) (past : Bool)
    → a.terminated ≡ b.terminated
    → a.authorized ≡ b.authorized
    → resolve_column a o past ≡ resolve_column b o past
unfolding resolve_column resolve_flags
column_same a b (some s) past t u = refl
column_same a b none past t u = rw (t, u) refl
