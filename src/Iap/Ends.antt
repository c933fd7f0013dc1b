-- ===== src/Iap/Ends.antt =====
-- services/iap/engine.py: the rounds of the allocation end before the bound on their number.
use sas_core.Prelude.{
  ℕ, zero, suc, ◌+◌, ◌≤◌, ◌<◌, true, ◌≡◌, refl, ◌∙◌, List, map, All, ltb, Bool-cases, ◌⊎◌, inl, inr,
  arith,
}
use sas_core.Iap.Rounds.{
  IapRun, IapGrant, Tally, judge_grant, lock_grant, drop_grant, for_grants, lock_all, iap_round,
  iap_rounds,
}
use sas_core.Iap.Tallied.{
  open_grants, Sinking, Unsatisfied, for_grants-All, Counts-for_grants, locks-for_grants,
  lock-Counts, drop-Counts, lock-Sinking, lock-Unsatisfied, drop-Sinking, drop_closes, closed_count,
  map-open, map-Sinking, All-refl, All-zip, fewer-for_grants,
}

-- What a round does to a list of grants that sink in at most `m` + 1 steps: one is removed for good, or
-- they all sink by one step.
Lower : IapRun → ℕ → List IapGrant → Type 0
Lower r zero es = open_grants es ≡ 0
Lower r (suc m) es = All (Sinking r.config m) es

module _ (r : IapRun) (p : List IapGrant × Tally)
    (even : p.1.num_unsatisfied ≡ open_grants p.0) where
  judged : List IapGrant
  judged = map (judge_grant r p.1.channels) p.0

  lock-even : (lock_all r p).1.num_unsatisfied ≡ open_grants (lock_all r p).0
  unfolding lock_all judged
  lock-even =
      let same = map-open r p.1.channels p.0 in
      let counted =
        Counts-for_grants (lock_grant r) (lock-Counts r) judged (record p.1 { newly_locked = 0 })
          (ground arith) in
      ground arith

  lock-fewer : (lock_all r p).1.newly_locked + open_grants (lock_all r p).0 ≡ open_grants p.0
  unfolding lock_all judged
  lock-fewer =
      let same = map-open r p.1.channels p.0 in
      let counted = locks-for_grants r judged (record p.1 { newly_locked = 0 }) in ground arith

  lock_all-Sinking :
      (m : ℕ) → All (Sinking r.config m) p.0 → All (Sinking r.config m) (lock_all r p).0
  unfolding lock_all judged
  lock_all-Sinking m a =
      for_grants-All _ _ (lock_grant r) (lock-Sinking r m) judged (record p.1 { newly_locked = 0 })
        (map-Sinking r p.1.channels m p.0 a)

  lock_all-Unsatisfied : All Unsatisfied (lock_all r p).0
  unfolding lock_all judged
  lock_all-Unsatisfied =
      for_grants-All (λ (e : IapGrant). e ≡ e) Unsatisfied (lock_grant r)
        (λ e t u. lock-Unsatisfied r e t) judged (record p.1 { newly_locked = 0 }) (All-refl judged)

  round-even : (iap_round r p).1.num_unsatisfied ≡ open_grants (iap_round r p).0
  unfolding iap_round
  round-even = elim (Bool-cases (ltb 0 (lock_all r p).1.newly_locked)) [
    | inl locked ↦ rw locked lock-even
    | inr none_locked ↦
        let before = lock-even in
        let counted =
          Counts-for_grants (drop_grant r) (drop-Counts r) (lock_all r p).0 (lock_all r p).1
            (ground arith) in
        rw none_locked (ground arith)
  ]

  dropped-Lower :
      (m : ℕ)
      → All (Sinking r.config m) p.0
      → Lower r m (for_grants (drop_grant r) (lock_all r p).0 (lock_all r p).1).0
  unfolding Lower
  dropped-Lower zero a = closed_count _ (
      for_grants-All _ (λ (e : IapGrant). e.removed ≡ true) (drop_grant r) (drop_closes r)
        (lock_all r p).0 (lock_all r p).1
        (All-zip (Sinking r.config 0) Unsatisfied (lock_all r p).0 (lock_all-Sinking 0 a)
          lock_all-Unsatisfied))
  dropped-Lower (suc m) a =
      for_grants-All _ (Sinking r.config m) (drop_grant r) (drop-Sinking r m) (lock_all r p).0
        (lock_all r p).1
        (All-zip (Sinking r.config (suc m)) Unsatisfied (lock_all r p).0
          (lock_all-Sinking (suc m) a) lock_all-Unsatisfied)

  drop-fewer :
      open_grants (for_grants (drop_grant r) (lock_all r p).0 (lock_all r p).1).0 ≤ open_grants p.0
  drop-fewer =
      let locked = lock-fewer in
      let dropped = fewer-for_grants r (lock_all r p).0 (lock_all r p).1 in ground arith

  round-Lower :
      (m : ℕ)
      → All (Sinking r.config m) p.0
      → (All (Sinking r.config m) (iap_round r p).0
          × (open_grants (iap_round r p).0 < open_grants p.0))
        ⊎ (Lower r m (iap_round r p).0 × (open_grants (iap_round r p).0 ≤ open_grants p.0))
  unfolding iap_round
  round-Lower m a = elim (Bool-cases (ltb 0 (lock_all r p).1.newly_locked)) [
    | inl locked ↦
        rw locked (inl (lock_all-Sinking m a, (let counted = lock-fewer in ground arith)))
    | inr none_locked ↦ rw none_locked (inr (dropped-Lower m a, drop-fewer))
  ]

rounds_done :
    (r : IapRun) (n : ℕ) (p : List IapGrant × Tally)
    → p.1.num_unsatisfied ≡ 0
    → iap_rounds n r p ≡ p
unfolding iap_rounds
rounds_done r zero p h = refl
rounds_done r (suc n) p h = rw h refl

pub rounds_end :
    (r : IapRun) (n m : ℕ) (p : List IapGrant × Tally)
    → p.1.num_unsatisfied ≡ open_grants p.0
    → All (Sinking r.config m) p.0
    → open_grants p.0 + m < n
    → ((iap_rounds n r p).1.num_unsatisfied ≡ 0) × (open_grants (iap_rounds n r p).0 ≡ 0)
unfolding iap_rounds Lower
rounds_end r zero m p even a h = absurd (ground arith)
rounds_end r (suc n) m p even a h = elim (Bool-cases (ltb 0 p.1.num_unsatisfied)) [
  | inr none ↦ rw none (ground arith, ground arith)
  | inl some ↦ rw some (
      by_round m h (λ k. rounds_end r n k (iap_round r p) (round-even r p even))
        (round-Lower r p even m a))
]
  where
    Closed : List IapGrant × Tally → Type 0
    Closed q = (q.1.num_unsatisfied ≡ 0) × (open_grants q.0 ≡ 0)

    by_round :
        (m : ℕ)
        → open_grants p.0 + m < suc n
        → ((k : ℕ)
            → All (Sinking r.config k) (iap_round r p).0
            → open_grants (iap_round r p).0 + k < n
            → Closed (iap_rounds n r (iap_round r p)))
        → (All (Sinking r.config m) (iap_round r p).0
            × (open_grants (iap_round r p).0 < open_grants p.0))
          ⊎ (Lower r m (iap_round r p).0 × (open_grants (iap_round r p).0 ≤ open_grants p.0))
        → Closed (iap_rounds n r (iap_round r p))
    by_round m h next (inl k) = next m k.0 (ground arith)
    by_round (suc m) h next (inr k) = next m k.0 (ground arith)
    by_round zero h next (inr k) =
        let count = round-even r p even ∙ k.0 in
        rw (rounds_done r n (iap_round r p) count) (count, k.0)
