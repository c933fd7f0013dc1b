-- ===== src/Iap/Tallied.antt =====
-- services/iap/engine.py: what the loops of a round do to the grants and to the count of the unsatisfied.
use sas_core.Prelude.{
  ℕ, zero, suc, ◌+◌, ◌≤◌, Bool, true, false, ◌||◌, ◌≡◌, refl, List, [], ◌∷◌, map, All, Bool-cases,
  ◌⊎◌, inl, inr, arith,
}
use sas_core.Prelude.Int.{ℤ, ◌-ℤ◌, ltb_ℤ}
use sas_core.Iap.Rounds.{
  IapEngineConfig, IapRun, IapGrant, IapChannel, Tally, mark_satisfied, judge_grant, lock_grant,
  lower_grant, drop_grant, for_grants,
}

-- A body of a loop over the grants.
abbrev pub Step : Type 0
Step = IapGrant → Tally → IapGrant × Tally

-- One for a grant that is not removed.
unfoldable pub open_grant : Bool → ℕ
open_grant true = 0
open_grant false = 1

-- How many grants are not removed.
unfoldable pub open_grants : List IapGrant → ℕ
open_grants [] = 0
open_grants (e ∷ es) = open_grant e.removed + open_grants es

-- The power falls below the floor in at most `n` + 1 steps.
unfoldable pub sinks : IapEngineConfig → ℕ → ℤ → Bool
sinks cfg zero eirp = ltb_ℤ (eirp -ℤ cfg.eirp_step_db) cfg.eirp_floor_dbm_mhz
sinks cfg (suc n) eirp =
    ltb_ℤ (eirp -ℤ cfg.eirp_step_db) cfg.eirp_floor_dbm_mhz
    || sinks cfg n (eirp -ℤ cfg.eirp_step_db)

unfoldable pub Sinking : IapEngineConfig → ℕ → IapGrant → Type 0
Sinking cfg n e = (e.removed ≡ true) ⊎ (sinks cfg n e.eirp ≡ true)

unfoldable pub Unsatisfied : IapGrant → Type 0
Unsatisfied e = (e.removed ≡ true) ⊎ (e.satisfied ≡ false)

pub for_grants-All {ℓ κ} :
    (P : IapGrant → Type ℓ) (Q : IapGrant → Type κ) (step : Step)
    → ((e : IapGrant) (t : Tally) → P e → Q (step e t).0)
    → (es : List IapGrant) (t : Tally) → All P es
    → All Q (for_grants step es t).0
unfolding for_grants
for_grants-All P Q step f [] t a = tt
for_grants-All P Q step f (e ∷ es) t a = (f e t a.0, for_grants-All P Q step f es (step e t).1 a.1)

-- Every removed grant is taken from the count.
pub Counts : Step → Type 0
Counts step =
    (e : IapGrant) (t : Tally)
    → open_grant e.removed ≤ t.num_unsatisfied
    → ((step e t).1.num_unsatisfied + open_grant e.removed
        ≡ t.num_unsatisfied + open_grant (step e t).0.removed)

pub Counts-for_grants :
    (step : Step)
    → Counts step
    → (es : List IapGrant) (t : Tally) → open_grants es ≤ t.num_unsatisfied
    → ((for_grants step es t).1.num_unsatisfied + open_grants es
        ≡ t.num_unsatisfied + open_grants (for_grants step es t).0)
unfolding for_grants open_grants Counts
Counts-for_grants step k [] t h = ground arith
Counts-for_grants step k (e ∷ es) t h =
    let now = k e t (ground arith) in
    let rest = Counts-for_grants step k es (step e t).1 (ground arith) in ground arith

-- Every grant that the second loop removes is newly locked.
locks_lem :
    (r : IapRun) (e : IapGrant) (t : Tally)
    → (lock_grant r e t).1.newly_locked + open_grant (lock_grant r e t).0.removed
      ≡ t.newly_locked + open_grant e.removed
unfolding lock_grant open_grant
locks_lem r e t = ground arith

pub locks-for_grants :
    (r : IapRun) (es : List IapGrant) (t : Tally)
    → (for_grants (lock_grant r) es t).1.newly_locked
        + open_grants (for_grants (lock_grant r) es t).0
      ≡ t.newly_locked + open_grants es
unfolding for_grants open_grants
locks-for_grants r [] t = refl
locks-for_grants r (e ∷ es) t =
    let now = locks_lem r e t in
    let rest = locks-for_grants r es (lock_grant r e t).1 in ground arith

pub lock-Counts : (r : IapRun) → Counts (lock_grant r)
unfolding lock_grant Counts open_grant
lock-Counts r e t h = ground arith

lower_count :
    (r : IapRun) (e : IapGrant) (eirp : ℤ) (t : Tally)
    → open_grant e.removed ≤ t.num_unsatisfied
    → e.removed ≡ false
    → (lower_grant r e eirp t).1.num_unsatisfied + open_grant e.removed
      ≡ t.num_unsatisfied + open_grant (lower_grant r e eirp t).0.removed
unfolding lower_grant open_grant
lower_count r e eirp t h n = ground arith

pub drop-Counts : (r : IapRun) → Counts (drop_grant r)
unfolding drop_grant Counts
drop-Counts r e t h = elim (Bool-cases (e.removed || e.satisfied)) [
  | inl done ↦ rw done refl
  | inr held ↦ rw held (lower_count r e _ t h (ground arith))
]

-- The loops keep what sinks.
judge-Sinking :
    (r : IapRun) (cs : List IapChannel) (n : ℕ) (e : IapGrant)
    → Sinking r.config n e
    → Sinking r.config n (judge_grant r cs e)
unfolding judge_grant mark_satisfied Sinking
judge-Sinking r cs n e h = ground arith

pub lock-Sinking :
    (r : IapRun) (n : ℕ) (e : IapGrant) (t : Tally)
    → Sinking r.config n e
    → Sinking r.config n (lock_grant r e t).0
unfolding lock_grant Sinking
lock-Sinking r n e t h = ground arith

pub lock-Unsatisfied : (r : IapRun) (e : IapGrant) (t : Tally) → Unsatisfied (lock_grant r e t).0
unfolding lock_grant Unsatisfied
lock-Unsatisfied r e t = ground arith

-- The third loop lowers what the second one left.
pub drop-Sinking :
    (r : IapRun) (n : ℕ) (e : IapGrant) (t : Tally)
    → Sinking r.config (suc n) e × Unsatisfied e
    → Sinking r.config n (drop_grant r e t).0
unfolding drop_grant lower_grant Sinking Unsatisfied sinks
drop-Sinking r n e t h = ground arith

pub drop_closes :
    (r : IapRun) (e : IapGrant) (t : Tally)
    → Sinking r.config 0 e × Unsatisfied e
    → (drop_grant r e t).0.removed ≡ true
unfolding drop_grant lower_grant Sinking Unsatisfied sinks
drop_closes r e t h = ground arith

pub closed_count :
    (es : List IapGrant) → All (λ (e : IapGrant). e.removed ≡ true) es → open_grants es ≡ 0
unfolding open_grants open_grant
closed_count [] a = refl
closed_count (e ∷ es) a = let rest = closed_count es a.1 in rw a.0 (ground arith)

judge-open :
    (r : IapRun) (cs : List IapChannel) (e : IapGrant) → (judge_grant r cs e).removed ≡ e.removed
unfolding judge_grant mark_satisfied
judge-open r cs e = ground arith

pub map-open :
    (r : IapRun) (cs : List IapChannel) (es : List IapGrant)
    → open_grants (map (judge_grant r cs) es) ≡ open_grants es
unfolding open_grants
map-open r cs [] = refl
map-open r cs (e ∷ es) = rw (judge-open r cs e, map-open r cs es) refl

pub map-Sinking :
    (r : IapRun) (cs : List IapChannel) (n : ℕ) (es : List IapGrant)
    → All (Sinking r.config n) es
    → All (Sinking r.config n) (map (judge_grant r cs) es)
map-Sinking r cs n [] a = tt
map-Sinking r cs n (e ∷ es) a = (judge-Sinking r cs n e a.0, map-Sinking r cs n es a.1)

pub All-refl : (es : List IapGrant) → All (λ (e : IapGrant). e ≡ e) es
All-refl [] = tt
All-refl (e ∷ es) = (refl, All-refl es)

pub All-zip {ℓ κ} :
    (P : IapGrant → Type ℓ) (Q : IapGrant → Type κ) (es : List IapGrant)
    → All P es
    → All Q es
    → All (λ (e : IapGrant). P e × Q e) es
All-zip P Q [] a b = tt
All-zip P Q (e ∷ es) a b = ((a.0, b.0), All-zip P Q es a.1 b.1)

drop_fewer :
    (r : IapRun) (e : IapGrant) (t : Tally)
    → open_grant (drop_grant r e t).0.removed ≤ open_grant e.removed
unfolding drop_grant lower_grant open_grant
drop_fewer r e t = ground arith

pub fewer-for_grants :
    (r : IapRun) (es : List IapGrant) (t : Tally)
    → open_grants (for_grants (drop_grant r) es t).0 ≤ open_grants es
unfolding for_grants open_grants
fewer-for_grants r [] t = ground arith
fewer-for_grants r (e ∷ es) t =
    let here = drop_fewer r e t in
    let rest = fewer-for_grants r es (drop_grant r e t).1 in ground arith
