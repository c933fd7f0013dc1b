-- ===== src/Lifecycle/Legal.antt =====
-- services/lifecycle.py: the grant transition table against a relation written apart from it.
use sas_core.Prelude.{◌≡◌, refl, ◌↔◌, some, [], arith}
use sas_core.Lifecycle.States.{
  GrantState, requested, granted, authorized, suspended, terminated, expired, relinquished,
  GrantEvent, approve, authorize, suspend, terminate, expire, relinquish,
}
use sas_core.Lifecycle.Tables.{grant_transitions}
use sas_core.Lifecycle.Transition.{
  Payload, missing_required_fields, check_grant, evaluate_grant_transition,
}

-- The states in which a grant may still transmit or come back to it.
pub data IsLive : GrantState → Type 0 where
  granted_live : IsLive granted
  authorized_live : IsLive authorized
  suspended_live : IsLive suspended

pub data Legal : GrantEvent → GrantState → GrantState → Type 0 where
  grants : Legal approve requested granted
  authorizes : {s : GrantState} → IsLive s → Legal authorize s authorized
  suspends : {s : GrantState} → IsLive s → Legal suspend s suspended
  terminates : {s : GrantState} → IsLive s → Legal terminate s terminated
  expires : {s : GrantState} → IsLive s → Legal expire s expired
  expires_again : Legal expire expired expired
  relinquishes : {s : GrantState} → IsLive s → Legal relinquish s relinquished

ruleset live_states = (granted_live, authorized_live, suspended_live)

ruleset legal_moves =
    (live_states, grants, authorizes, suspends, terminates, expires, expires_again, relinquishes)

abbrev Complete : GrantEvent → Payload → Type 0
Complete e p = missing_required_fields p (grant_transitions e).required_fields ≡ []

check-Legal :
    (e : GrantEvent) (s t : GrantState)
    → (check_grant e (grant_transitions e) s []).to_state ≡ some t
    → Legal e s t
unfolding check_grant grant_transitions
check-Legal e s t h = grind (arith, legal_moves)

Legal-check :
    (e : GrantEvent) {s t : GrantState}
    → Legal e s t
    → (check_grant e (grant_transitions e) s []).to_state ≡ some t
unfolding check_grant grant_transitions
Legal-check e grants = refl
Legal-check e (authorizes granted_live) = refl
Legal-check e (authorizes authorized_live) = refl
Legal-check e (authorizes suspended_live) = refl
Legal-check e (suspends granted_live) = refl
Legal-check e (suspends authorized_live) = refl
Legal-check e (suspends suspended_live) = refl
Legal-check e (terminates granted_live) = refl
Legal-check e (terminates authorized_live) = refl
Legal-check e (terminates suspended_live) = refl
Legal-check e (expires granted_live) = refl
Legal-check e (expires authorized_live) = refl
Legal-check e (expires suspended_live) = refl
Legal-check e expires_again = refl
Legal-check e (relinquishes granted_live) = refl
Legal-check e (relinquishes authorized_live) = refl
Legal-check e (relinquishes suspended_live) = refl

-- With all its required fields given, an event is accepted exactly along the legal moves, and the
-- outcome then names the state that the move leads to.
pub evaluate-Legal :
    (e : GrantEvent) (s t : GrantState) (p : Payload)
    → missing_required_fields p (grant_transitions e).required_fields ≡ []
    → ((evaluate_grant_transition e s p).to_state ≡ some t) ↔ Legal e s t
unfolding evaluate_grant_transition
evaluate-Legal e s t p h = rw h (check-Legal e s t, Legal-check e)
