-- ===== src/Iap/Severity.antt =====
-- services/iap/engine.py: the merge of the points' decisions keeps the most severe one.
use Prim.Native.String.{compare}
use sas_core.Prelude.{
  ℕ, max, suc, String, true, ◌&&◌, ◌≡◌, refl, List, [], ◌∷◌, ltb, nat_beq, if◌then◌else◌, ◌==◌,
  string_eq, eq_iff, Bool-cases, inl, inr, arith,
}
use sas_core.Prelude.Int.{ltb_ℤ}
use sas_core.Iap.Decisions.{
  IapAction, keep, reduce_power, suspend, terminate, IapGrantDecision, IapPointResult,
}
use sas_core.Iap.Merge.{
  rank, is_reduce_power, merge_decision, put_best, put_decisions, put_results, is_gt, insert_sorted,
  sort_decisions, merge_iap_decisions,
}

-- The order of the actions: keep, reduce_power, suspend, terminate.
unfoldable pub level : IapAction → ℕ
level keep = 1
level reduce_power = 2
level suspend = 3
level terminate = 4

-- The code's ranks are in this order.
rank-level : (a : IapAction) → suc (rank a) ≡ level a
unfolding rank level
rank-level keep = refl
rank-level reduce_power = refl
rank-level suspend = refl
rank-level terminate = refl

-- How severe a decision is for the grant `id`: 0 for another grant, and 1 to 4 from keep to terminate.
unfoldable pub severity_at : String → IapGrantDecision → ℕ
severity_at id d = if d.grant_id == id then level d.action else 0

-- The most severe of some decisions on the grant `id`, 0 where there is none.
unfoldable pub severity : String → List IapGrantDecision → ℕ
severity id [] = 0
severity id (d ∷ ds) = max (severity_at id d) (severity id ds)

-- The same of all points.
unfoldable pub severity_of_points : String → List IapPointResult → ℕ
severity_of_points id [] = 0
severity_of_points id (p ∷ ps) = max (severity id p.decisions) (severity_of_points id ps)

ranks_reduce : (a b : IapAction) → is_reduce_power a && is_reduce_power b ≡ true → rank a ≡ rank b
unfolding is_reduce_power rank
ranks_reduce a b h = ground arith

merge-severity_at :
    (id : String) (prev d : IapGrantDecision)
    → prev.grant_id ≡ d.grant_id
    → severity_at id (merge_decision prev d) ≡ max (severity_at id prev) (severity_at id d)
unfolding merge_decision severity_at
merge-severity_at id prev d h =
    let old = rank-level prev.action in
    let new = rank-level d.action in
    elim (Bool-cases (ltb (rank prev.action) (rank d.action))) [
      | inl higher ↦ rw (higher, h) (ground arith)
      | inr not_higher ↦
          elim (Bool-cases (
            is_reduce_power d.action
            && is_reduce_power prev.action
            && ltb_ℤ d.authorized_eirp_dbm_mhz prev.authorized_eirp_dbm_mhz)) [
              | inl less ↦
                  let same = ranks_reduce d.action prev.action (ground arith) in
                  rw (not_higher, less, h) (ground arith)
              | inr not_less ↦ elim (Bool-cases (nat_beq (rank d.action) (rank prev.action))) [
                | inl equal ↦ rw (not_higher, not_less, equal, h) (ground arith)
                | inr other ↦ rw (not_higher, not_less, other, h) (ground arith)
              ]
            ]
    ]

put_best-severity :
    (id : String) (best : List IapGrantDecision) (d : IapGrantDecision)
    → severity id (put_best best d) ≡ max (severity id best) (severity_at id d)
unfolding put_best severity
put_best-severity id [] d = ground arith
put_best-severity id (prev ∷ rest) d = elim (Bool-cases (prev.grant_id == d.grant_id)) [
  | inl same ↦
      let merged = merge-severity_at id prev d ((eq_iff _ _).0 same) in rw same (ground arith)
  | inr other ↦ let later = put_best-severity id rest d in rw other (ground arith)
]

put_decisions-severity :
    (id : String) (best ds : List IapGrantDecision)
    → severity id (put_decisions best ds) ≡ max (severity id best) (severity id ds)
unfolding put_decisions severity
put_decisions-severity id best [] = ground arith
put_decisions-severity id best (d ∷ ds) =
    let here = put_best-severity id best d in
    let rest = put_decisions-severity id (put_best best d) ds in ground arith

put_results-severity :
    (id : String) (best : List IapGrantDecision) (ps : List IapPointResult)
    → severity id (put_results best ps) ≡ max (severity id best) (severity_of_points id ps)
unfolding put_results severity_of_points
put_results-severity id best [] = ground arith
put_results-severity id best (p ∷ ps) =
    let here = put_decisions-severity id best p.decisions in
    let rest = put_results-severity id (put_decisions best p.decisions) ps in ground arith

insert-severity :
    (id : String) (d : IapGrantDecision) (ds : List IapGrantDecision)
    → severity id (insert_sorted d ds) ≡ max (severity_at id d) (severity id ds)
unfolding insert_sorted severity
insert-severity id d [] = refl
insert-severity id d (e ∷ es) = elim (Bool-cases (is_gt (compare d.grant_id e.grant_id))) [
  | inl after ↦ let later = insert-severity id d es in rw after (ground arith)
  | inr before ↦ rw before refl
]

sort-severity :
    (id : String) (ds : List IapGrantDecision) → severity id (sort_decisions ds) ≡ severity id ds
unfolding sort_decisions severity
sort-severity id [] = refl
sort-severity id (d ∷ ds) =
    let here = insert-severity id d (sort_decisions ds) in
    let rest = sort-severity id ds in ground arith

-- For every grant, the merged decision is as severe as the most severe decision of any point, and there
-- is one exactly if some point decides on the grant.
pub merge_iap-severity :
    (results : List IapPointResult) (id : String)
    → severity id (merge_iap_decisions results) ≡ severity_of_points id results
unfolding merge_iap_decisions severity
merge_iap-severity results id =
    let sorted = sort-severity id (put_results [] results) in
    let put = put_results-severity id [] results in ground arith
