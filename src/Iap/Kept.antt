-- ===== src/Iap/Kept.antt =====
-- services/iap/engine.py: the arrays stand for the same grants, in their order, after every round.
use sas_core.Prelude.{
  ℕ, zero, suc, Bool, ◌||◌, true, false, ◌≡◌, refl, ◌∙◌, ap, ap₂, List, [], ◌∷◌, map, ltb,
  if◌then◌else◌, Bool-cases, inl, inr,
}
use sas_core.Prelude.Int.{ℤ, ltb_ℤ}
use sas_core.Iap.Points.{GrantRfInfo, FrequencyChannel}
use sas_core.Iap.Rounds.{
  IapRun, IapGrant, IapChannel, Tally, judge_grant, mark_satisfied, lock_grant, lower_grant,
  drop_grant, for_grants, lock_all, iap_round, iap_rounds, new_entry, allocate,
}
use sas_core.Iap.Tallied.{Step}

abbrev pub grants_of : List IapGrant → List GrantRfInfo
grants_of es = map (λ (e : IapGrant). e.grant) es

grants_of-for_grants :
    (step : Step)
    → ((e : IapGrant) (t : Tally) → (step e t).0.grant ≡ e.grant)
    → (es : List IapGrant) (t : Tally) → grants_of (for_grants step es t).0 ≡ grants_of es
unfolding for_grants
grants_of-for_grants step k [] t = refl
grants_of-for_grants step k (e ∷ es) t =
    ap₂ (λ (g : GrantRfInfo) (gs : List GrantRfInfo). g ∷ gs) (k e t)
      (grants_of-for_grants step k es (step e t).1)

grant-if :
    (b : Bool) (x y : IapGrant) (g : GrantRfInfo)
    → x.grant ≡ g
    → y.grant ≡ g
    → (if b then x else y).grant ≡ g
grant-if true x y g h k = h
grant-if false x y g h k = k

pair-if :
    (b : Bool) (x y : IapGrant × Tally) (g : GrantRfInfo)
    → x.0.grant ≡ g
    → y.0.grant ≡ g
    → (if b then x else y).0.grant ≡ g
pair-if true x y g h k = h
pair-if false x y g h k = k

judge_keeps :
    (r : IapRun) (cs : List IapChannel) (e : IapGrant) → (judge_grant r cs e).grant ≡ e.grant
unfolding judge_grant mark_satisfied
judge_keeps r cs e = grant-if _ _ _ _ refl refl

lock_keeps : (r : IapRun) (e : IapGrant) (t : Tally) → (lock_grant r e t).0.grant ≡ e.grant
unfolding lock_grant
lock_keeps r e t = pair-if _ _ _ _ refl refl

lower_keeps :
    (r : IapRun) (e : IapGrant) (eirp : ℤ) (t : Tally) → (lower_grant r e eirp t).0.grant ≡ e.grant
unfolding lower_grant
lower_keeps r e eirp t = pair-if (ltb_ℤ eirp r.config.eirp_floor_dbm_mhz) _ _ _ refl refl

drop_keeps : (r : IapRun) (e : IapGrant) (t : Tally) → (drop_grant r e t).0.grant ≡ e.grant
unfolding drop_grant
drop_keeps r e t = pair-if (e.removed || e.satisfied) _ _ _ refl (lower_keeps r e _ t)

map_keeps :
    (r : IapRun) (cs : List IapChannel) (es : List IapGrant)
    → grants_of (map (judge_grant r cs) es) ≡ grants_of es
map_keeps r cs [] = refl
map_keeps r cs (e ∷ es) =
    ap₂ (λ (g : GrantRfInfo) (gs : List GrantRfInfo). g ∷ gs) (judge_keeps r cs e)
      (map_keeps r cs es)

lock_all_keeps :
    (r : IapRun) (p : List IapGrant × Tally) → grants_of (lock_all r p).0 ≡ grants_of p.0
unfolding lock_all
lock_all_keeps r p =
    grants_of-for_grants (lock_grant r) (lock_keeps r) _ (record p.1 { newly_locked = 0 })
    ∙ map_keeps r p.1.channels p.0

round_keeps : (r : IapRun) (p : List IapGrant × Tally) → grants_of (iap_round r p).0 ≡ grants_of p.0
unfolding iap_round
round_keeps r p = elim (Bool-cases (ltb 0 (lock_all r p).1.newly_locked)) [
  | inl locked ↦ rw locked (lock_all_keeps r p)
  | inr none_locked ↦ rw none_locked (
      grants_of-for_grants (drop_grant r) (drop_keeps r) (lock_all r p).0 (lock_all r p).1
      ∙ lock_all_keeps r p)
]

rounds_keep :
    (r : IapRun) (n : ℕ) (p : List IapGrant × Tally)
    → grants_of (iap_rounds n r p).0 ≡ grants_of p.0
unfolding iap_rounds
rounds_keep r zero p = refl
rounds_keep r (suc n) p = elim (Bool-cases (ltb 0 p.1.num_unsatisfied)) [
  | inl left ↦ rw left (rounds_keep r n (iap_round r p) ∙ round_keeps r p)
  | inr done ↦ rw done refl
]

new_keeps : (gs : List GrantRfInfo) → grants_of (map new_entry gs) ≡ gs
unfolding new_entry
new_keeps [] = refl
new_keeps (g ∷ gs) = ap (λ (hs : List GrantRfInfo). g ∷ hs) (new_keeps gs)

pub allocate_keeps :
    (r : IapRun) (gs : List GrantRfInfo) (chs : List FrequencyChannel)
    → grants_of (allocate r gs chs).0 ≡ gs
unfolding allocate
allocate_keeps r gs chs = rounds_keep r r.config.max_iterations _ ∙ new_keeps gs
