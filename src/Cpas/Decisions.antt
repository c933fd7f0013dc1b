-- ===== src/Cpas/Decisions.antt =====
-- services/cpas_service.py: a decision on a grant; services/mcp_protection.py: the merge of decisions.
use sas_core.Prelude.{
  ℕ, String, ◌&&◌, not, Option, none, some, List, [], ◌∷◌, map, nat_beq, if◌then◌else◌, ◌==◌,
  string_eq,
}
use sas_core.Prelude.Int.{ℤ}

-- A decision; the power is in thousandths of a decibel.
pub record CpasDecision : Type 0 where
  pub grant_pk : Option ℕ
  pub grant_id : String
  pub cbsd_id : String
  pub reason : String
  pub action : String
  pub authorized_eirp : Option ℤ
  pub explanation : String

-- `by_pk`, in the order of `order`: the keys in the order of their first decision.
abbrev pub Merged : Type 0
Merged = List (ℕ × CpasDecision)

-- What stays of two decisions on one grant.
unfoldable pub choose : CpasDecision → CpasDecision → CpasDecision
choose existing d =
    if d.action == "terminate"
    then d
    else if not (existing.action == "terminate") && d.action == "reduce_power"
    then d
    else existing

unfoldable pub consider_pk : Merged → ℕ → CpasDecision → Merged
consider_pk [] pk d = (pk, d) ∷ []
consider_pk ((k, e) ∷ rest) pk d =
    let others = consider_pk rest pk d in
    if nat_beq k pk then (k, choose e d) ∷ rest else (k, e) ∷ others

unfoldable pub consider : Merged → Option ℕ → CpasDecision → Merged
consider merged none d = merged
consider merged (some pk) d = consider_pk merged pk d

unfoldable pub consider_all : Merged → List CpasDecision → Merged
consider_all merged [] = merged
consider_all merged (d ∷ ds) = consider_all (consider merged d.grant_pk d) ds

-- The loop over `(peer, iap, dpa)`.
unfoldable pub merge_constraint_decisions :
    List CpasDecision → List CpasDecision → List CpasDecision → List CpasDecision
merge_constraint_decisions peer iap dpa =
    map (λ (e : ℕ × CpasDecision). e.1) (consider_all (consider_all (consider_all [] peer) iap) dpa)
