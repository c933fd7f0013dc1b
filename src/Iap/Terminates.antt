-- ===== src/Iap/Terminates.antt =====
-- services/iap/engine.py: the allocation comes to an end.
use sas_core.Prelude.{
  ℕ, zero, suc, ◌*◌, ◌<◌, true, ◌≡◌, refl, sym, ap, subst, List, [], ◌∷◌, map, length, All, inr,
  arith,
}
use sas_core.Prelude.Int.{ℤ, pos, ◌-ℤ◌, ◌≤ℤ◌}
use sas_core.Iap.Points.{GrantRfInfo, FrequencyChannel}
use sas_core.Iap.Rounds.{IapEngineConfig, default_config, IapRun, IapGrant, new_entry, allocate}
use sas_core.Iap.Tallied.{open_grant, open_grants, sinks, Sinking}
use sas_core.Iap.Ends.{rounds_end}

sinks_within :
    (n : ℕ) (eirp : ℤ) → eirp ≤ℤ pos (n * 1000) -ℤ pos 137000 → sinks default_config n eirp ≡ true
unfolding sinks default_config
sinks_within zero eirp h = ground arith
sinks_within (suc n) eirp h =
    let rest = sinks_within n (eirp -ℤ pos 1000) (ground arith) in rw rest (ground arith)

-- The grants of a run have at most 63 dBm/MHz.
abbrev pub AtMost63 : GrantRfInfo → Type 0
AtMost63 g = g.max_eirp_dbm_mhz ≤ℤ pos 63000

new-Sinking :
    (gs : List GrantRfInfo) → All AtMost63 gs → All (Sinking default_config 200) (map new_entry gs)
unfolding Sinking new_entry
new-Sinking [] a = tt
new-Sinking (g ∷ gs) a = (inr (sinks_within 200 _ a.0), new-Sinking gs a.1)

new-open : (gs : List GrantRfInfo) → open_grants (map new_entry gs) ≡ length gs
unfolding open_grants open_grant new_entry
new-open [] = refl
new-open (g ∷ gs) = let rest = new-open gs in ground arith

closed-removed :
    (es : List IapGrant) → open_grants es ≡ 0 → All (λ (e : IapGrant). e.removed ≡ true) es
unfolding open_grants open_grant
closed-removed [] h = tt
closed-removed (e ∷ es) h = (ground arith, closed-removed es (ground arith))

-- With the default floor, step and bound on the rounds, and fewer than 9,800 grants of at most
-- 63 dBm/MHz, the rounds end by their own test: no grant is left unsatisfied and each is removed, that
-- is, locked at a power or dropped at the floor.
pub allocate_ends :
    (r : IapRun) (neighbors : List GrantRfInfo) (channels : List FrequencyChannel)
    → r.config ≡ default_config
    → All AtMost63 neighbors
    → length neighbors < 9800
    → ((allocate r neighbors channels).1.num_unsatisfied ≡ 0)
      × All (λ (e : IapGrant). e.removed ≡ true) (allocate r neighbors channels).0
unfolding allocate default_config
allocate_ends r neighbors channels c a h =
    let start = new-open neighbors in
    let done =
      rounds_end r r.config.max_iterations 200 _ (sym start)
        (subst (λ (cfg : IapEngineConfig). All (Sinking cfg 200) (map new_entry neighbors)) (sym c)
          (new-Sinking neighbors a))
        (rw (ap (λ (cfg : IapEngineConfig). cfg.max_iterations) c) (ground arith)) in
    (done.0, closed-removed _ done.1)
