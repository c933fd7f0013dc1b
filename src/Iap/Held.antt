-- ===== src/Iap/Held.antt =====
-- services/iap/engine.py: no round raises a power, and none leaves a reduced one below the floor.
use sas_core.Prelude.{
  ℕ, zero, suc, Bool, true, false, ◌||◌, ◌≡◌, refl, List, [], ◌∷◌, map, All, ltb, Bool-cases, ◌⊎◌,
  inl, inr, arith,
}
use sas_core.Prelude.Int.{ℤ, pos, ◌-ℤ◌, ◌≤ℤ◌}
use sas_core.Iap.Points.{GrantRfInfo, FrequencyChannel}
use sas_core.Iap.Rounds.{
  IapRun, IapGrant, IapChannel, Tally, mark_satisfied, judge_grant, lock_grant, lower_grant,
  drop_grant, lock_all, iap_round, iap_rounds, new_entry, allocate,
}
use sas_core.Iap.Tallied.{for_grants-All}

-- A power that is not raised, and not below the floor unless it is the one that the grant came with.
unfoldable pub Within : ℤ → ℤ → ℤ → Type 0
Within floor initial eirp = (eirp ≤ℤ initial) × ((eirp ≡ initial) ⊎ (floor ≤ℤ eirp))

-- Such a power of a grant in the arrays, unless it hit the floor.
unfoldable pub Held : IapRun → IapGrant → Type 0
Held r e =
    ((e.hit_floor ≡ true) × (e.removed ≡ true))
    ⊎ Within r.config.eirp_floor_dbm_mhz e.grant.max_eirp_dbm_mhz e.eirp

judge-Held :
    (r : IapRun) (cs : List IapChannel) (e : IapGrant) → Held r e → Held r (judge_grant r cs e)
unfolding judge_grant mark_satisfied Held
judge-Held r cs e h = ground arith

lock-Held : (r : IapRun) (e : IapGrant) (t : Tally) → Held r e → Held r (lock_grant r e t).0
unfolding lock_grant Held
lock-Held r e t h = ground arith

lower-Held :
    (r : IapRun) (e : IapGrant) (eirp : ℤ) (t : Tally)
    → eirp ≤ℤ e.grant.max_eirp_dbm_mhz
    → Held r (lower_grant r e eirp t).0
unfolding lower_grant Held Within
lower-Held r e eirp t h = ground arith

step-down : (initial eirp step : ℤ) → eirp ≤ℤ initial → pos 0 ≤ℤ step → eirp -ℤ step ≤ℤ initial
step-down initial eirp step h k = ground arith

drop-Held :
    (r : IapRun)
    → pos 0 ≤ℤ r.config.eirp_step_db
    → (e : IapGrant) (t : Tally) → Held r e
    → Held r (drop_grant r e t).0
unfolding drop_grant Held Within
drop-Held r s e t h = elim (Bool-cases (e.removed || e.satisfied)) [
  | inl done ↦ rw done h
  | inr held ↦ rw held (
      lower-Held r e _ t
        (step-down e.grant.max_eirp_dbm_mhz e.eirp r.config.eirp_step_db (ground arith) s))
]

map-Held :
    (r : IapRun) (cs : List IapChannel) (es : List IapGrant)
    → All (Held r) es
    → All (Held r) (map (judge_grant r cs) es)
map-Held r cs [] a = tt
map-Held r cs (e ∷ es) a = (judge-Held r cs e a.0, map-Held r cs es a.1)

module _ (r : IapRun) (s : pos 0 ≤ℤ r.config.eirp_step_db) where
  lock_all-Held : (p : List IapGrant × Tally) → All (Held r) p.0 → All (Held r) (lock_all r p).0
  unfolding lock_all
  lock_all-Held p a =
      for_grants-All _ _ (lock_grant r) (lock-Held r) _ (record p.1 { newly_locked = 0 })
        (map-Held r p.1.channels p.0 a)

  round-Held : (p : List IapGrant × Tally) → All (Held r) p.0 → All (Held r) (iap_round r p).0
  unfolding iap_round
  round-Held p a = elim (Bool-cases (ltb 0 (lock_all r p).1.newly_locked)) [
    | inl locked ↦ rw locked (lock_all-Held p a)
    | inr none_locked ↦ rw none_locked (
        for_grants-All _ _ (drop_grant r) (drop-Held r s) (lock_all r p).0 (lock_all r p).1
          (lock_all-Held p a))
  ]

  rounds-Held :
      (n : ℕ) (p : List IapGrant × Tally) → All (Held r) p.0 → All (Held r) (iap_rounds n r p).0
  unfolding iap_rounds
  rounds-Held zero p a = a
  rounds-Held (suc n) p a = elim (Bool-cases (ltb 0 p.1.num_unsatisfied)) [
    | inl left ↦ rw left (rounds-Held n (iap_round r p) (round-Held p a))
    | inr done ↦ rw done a
  ]

  new-Held : (gs : List GrantRfInfo) → All (Held r) (map new_entry gs)
  unfolding Held Within new_entry
  new-Held [] = tt
  new-Held (g ∷ gs) = (inr (ground arith, inl refl), new-Held gs)

  pub allocate-Held :
      (gs : List GrantRfInfo) (chs : List FrequencyChannel) → All (Held r) (allocate r gs chs).0
  unfolding allocate
  allocate-Held gs chs = rounds-Held r.config.max_iterations _ (new-Held gs)

pub Held-Within :
    (r : IapRun) (e : IapGrant) (b : Bool)
    → Held r e
    → e.hit_floor || b ≡ false
    → Within r.config.eirp_floor_dbm_mhz e.grant.max_eirp_dbm_mhz e.eirp
unfolding Held
Held-Within r e b (inl h) k = absurd (ground arith)
Held-Within r e b (inr h) k = h
