-- ===== src/Iap/Merge.antt =====
-- services/iap/engine.py: `merge_iap_decisions` and `run_iap`.
use Prim.Native.Nat.{Ordering, gt}
use Prim.Native.String.{compare}
use sas_core.Prelude.{
  ℕ, Bool, true, false, ◌&&◌, List, [], ◌∷◌, ◌++◌, map, ltb, nat_beq, if◌then◌else◌, ◌==◌,
  string_eq,
}
use sas_core.Prelude.Int.{ltb_ℤ, min_ℤ}
use sas_core.Iap.Points.{ProtectionPoint, GrantRfInfo}
use sas_core.Iap.Decisions.{
  IapAction, keep, reduce_power, suspend, terminate, IapGrantDecision, IapPointResult, IapRunResult,
  Engine, run_iap_for_point,
}

unfoldable pub rank : IapAction → ℕ
rank keep = 0
rank reduce_power = 1
rank suspend = 2
rank terminate = 3

unfoldable pub is_reduce_power : IapAction → Bool
is_reduce_power reduce_power = true
is_reduce_power _ = false

-- What stays of the decision that is there and a later one on the same grant.
unfoldable pub merge_decision : IapGrantDecision → IapGrantDecision → IapGrantDecision
merge_decision prev d =
    if ltb (rank prev.action) (rank d.action)
    then d
    else if is_reduce_power d.action
        && is_reduce_power prev.action
        && ltb_ℤ d.authorized_eirp_dbm_mhz prev.authorized_eirp_dbm_mhz
    then d
    else if nat_beq (rank d.action) (rank prev.action)
    then record prev {
      authorized_eirp_dbm_mhz = min_ℤ prev.authorized_eirp_dbm_mhz d.authorized_eirp_dbm_mhz;
      explanation = prev.explanation ++ d.explanation;
    }
    else prev

-- `best`: a decision is kept under its own grant id.
unfoldable pub put_best : List IapGrantDecision → IapGrantDecision → List IapGrantDecision
put_best [] d = d ∷ []
put_best (prev ∷ rest) d =
    let others = put_best rest d in
    if prev.grant_id == d.grant_id then merge_decision prev d ∷ rest else prev ∷ others

unfoldable pub put_decisions : List IapGrantDecision → List IapGrantDecision → List IapGrantDecision
put_decisions best [] = best
put_decisions best (d ∷ ds) = put_decisions (put_best best d) ds

unfoldable pub put_results : List IapGrantDecision → List IapPointResult → List IapGrantDecision
put_results best [] = best
put_results best (result ∷ results) = put_results (put_decisions best result.decisions) results

unfoldable pub is_gt : Ordering → Bool
is_gt gt = true
is_gt _ = false

-- `sorted`, by the grant ids.
unfoldable pub insert_sorted : IapGrantDecision → List IapGrantDecision → List IapGrantDecision
insert_sorted d [] = d ∷ []
insert_sorted d (e ∷ es) =
    let later = insert_sorted d es in
    if is_gt (compare d.grant_id e.grant_id) then e ∷ later else d ∷ e ∷ es

unfoldable pub sort_decisions : List IapGrantDecision → List IapGrantDecision
sort_decisions [] = []
sort_decisions (d ∷ ds) = insert_sorted d (sort_decisions ds)

unfoldable pub merge_iap_decisions : List IapPointResult → List IapGrantDecision
merge_iap_decisions results = sort_decisions (put_results [] results)

unfoldable pub run_iap : Engine → List ProtectionPoint → List GrantRfInfo → IapRunResult
run_iap engine points grants =
    let results = map (λ (p : ProtectionPoint). run_iap_for_point engine p grants) points in
    record { points = results; merged_decisions = merge_iap_decisions results }
