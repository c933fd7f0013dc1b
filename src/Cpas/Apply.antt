-- ===== src/Cpas/Apply.antt =====
-- services/cpas_service.py: `apply_cpas_decisions`.
use Prim.Native.String.{slice}
use sas_core.Prelude.{
  ℕ, suc, String, Bool, true, not, Option, none, some, List, [], ◌∷◌, nat_beq, if◌then◌else◌, ◌==◌,
  string_eq,
}
use sas_core.Prelude.Int.{ℤ, leb_ℤ}
use sas_core.Records.{Grant}
use sas_core.Store.{Store}
use sas_core.Auth.{lock_grant_row}
use sas_core.Lifecycle.{
  GrantState, suspend, terminate, Payload, TransitionOutcome, apply_grant_event,
}
use sas_core.Rows.{save_grant}
use sas_core.Cpas.Decisions.{CpasDecision}

-- `filter_by(id=...).first()`
unfoldable pub find_grant_pk : List Grant → ℕ → Option Grant
find_grant_pk [] pk = none
find_grant_pk (g ∷ gs) pk = if nat_beq g.pk pk then some g else find_grant_pk gs pk

unfoldable pub row_by_pk : List Grant → ℕ → Option Grant → Option Grant
row_by_pk gs pk none = find_grant_pk gs pk
row_by_pk gs pk (some g) = if nat_beq g.pk pk then some g else find_grant_pk gs pk

-- By the ids, if that row has the primary key of the decision, or else by the key.
unfoldable pub find_decided : List Grant → ℕ → CpasDecision → Option Grant
find_decided gs pk d = row_by_pk gs pk (lock_grant_row gs d.grant_id d.cbsd_id)

-- `grant_id.startswith("peer/")`
unfoldable pub is_peer_id : String → Bool
is_peer_id id = slice id 0 5 == "peer/"

-- The tables, and how many grants were changed.
abbrev pub Progress : Type 0
Progress = Store × ℕ

unfoldable pub lowers : Option ℤ → ℤ → Bool
lowers none auth = true
lowers (some power) auth = not (leb_ℤ power auth)

unfoldable pub reduce_power : Progress → Grant → Option ℤ → Progress
reduce_power p g none = p
reduce_power p g (some auth) =
    if lowers g.max_eirp auth
    then (save_grant p.0 (record g { max_eirp = some auth }), suc p.1)
    else p

unfoldable pub decision_payload : Grant → CpasDecision → Payload
decision_payload g d =
    ("cbsdId", g.cbsd_id)
    ∷ ("grantId", g.grant_id)
    ∷ ("reason", d.reason)
    ∷ ("explanation", d.explanation)
    ∷ []

-- A refused event leaves the row.
unfoldable pub commit_event : Progress → TransitionOutcome GrantState × Grant → Progress
commit_event p r = if r.0.is_ok then (save_grant p.0 r.1, suc p.1) else p

unfoldable pub apply_action : Progress → Grant → CpasDecision → String → ℕ → Progress
apply_action p g d action now =
    if action == "reduce_power"
    then reduce_power p g d.authorized_eirp
    else if action == "suspend"
    then commit_event p (apply_grant_event g suspend (decision_payload g d) now)
    else if action == "terminate"
    then commit_event p (apply_grant_event g terminate (decision_payload g d) now)
    else p

-- `decision.action or "terminate"`
unfoldable pub action_of : CpasDecision → String
action_of d = if d.action == "" then "terminate" else d.action

unfoldable pub apply_to : Progress → CpasDecision → ℕ → Option Grant → Progress
apply_to p d now none = p
apply_to p d now (some g) =
    if g.terminated
    then p
    else if is_peer_id d.grant_id
    then p
    else apply_action p g d (action_of d) now

unfoldable pub apply_decision : Progress → CpasDecision → ℕ → Option ℕ → Progress
apply_decision p d now none = p
apply_decision p d now (some pk) = apply_to p d now (find_decided p.0.grants pk d)

-- The loop; each decision comes with the clock reading of its event.
unfoldable pub apply_decisions : Progress → List (ℕ × CpasDecision) → Progress
apply_decisions p [] = p
apply_decisions p ((now, d) ∷ ds) = apply_decisions (apply_decision p d now d.grant_pk) ds

unfoldable pub apply_cpas_decisions : Store → List (ℕ × CpasDecision) → Progress
apply_cpas_decisions db ds = apply_decisions (db, 0) ds
