-- ===== src/Iap/Powers.antt =====
-- services/iap/engine.py: the decisions of a run, grant by grant.
use sas_core.Prelude.{
  Bool, true, false, ◌&&◌, ◌||◌, not, ◌≡◌, refl, List, [], ◌∷◌, All, if◌then◌else◌, Bool-cases,
  subst, ◌⊎◌, inl, inr, arith,
}
use sas_core.Prelude.Int.{ℤ, pos, ◌≤ℤ◌, ltb_ℤ}
use sas_core.Iap.Points.{
  ProtectionPoint, GrantRfInfo, FrequencyChannel, overlapping_iap_channels, grants_in_neighborhood,
}
use sas_core.Iap.Rounds.{IapRun, IapGrant, IapChannel, allocate}
use sas_core.Iap.Decisions.{
  IapAction, terminate, Explanation, IapGrantDecision, Engine, decision, has_locked, decide,
  decide_all, keep_all, run_of, point_result, run_on, run_iap_for_point,
}
use sas_core.Iap.Kept.{grants_of, allocate_keeps}
use sas_core.Iap.Held.{Within, Held, Held-Within, allocate-Held}

-- A decision on a grant of this SAS: it names the grant and the power it came with, and ends it or
-- authorizes such a power.
unfoldable pub Authorizes : ℤ → GrantRfInfo → IapGrantDecision → Type 0
Authorizes floor g d =
    (g.is_managing_sas ≡ true)
    × (d.grant_id ≡ g.grant_id)
    × (d.cbsd_id ≡ g.cbsd_id)
    × (d.grant_pk ≡ g.grant_pk)
    × (d.initial_eirp_dbm_mhz ≡ g.max_eirp_dbm_mhz)
    × ((d.action ≡ terminate) ⊎ Within floor g.max_eirp_dbm_mhz d.authorized_eirp_dbm_mhz)

-- One decision on each grant of this SAS, in the order of the grants.
pub data Decided (floor : ℤ) : List GrantRfInfo → List IapGrantDecision → Type 0 where
  no_grants : Decided floor [] []
  peer :
      {g : GrantRfInfo} {gs : List GrantRfInfo} {ds : List IapGrantDecision}
      → g.is_managing_sas ≡ false
      → Decided floor gs ds
      → Decided floor (g ∷ gs) ds
  own :
      {g : GrantRfInfo} {gs : List GrantRfInfo} {d : IapGrantDecision} {ds : List IapGrantDecision}
      → Authorizes floor g d
      → Decided floor gs ds
      → Decided floor (g ∷ gs) (d ∷ ds)

Decided-if :
    (floor : ℤ) (g : GrantRfInfo) (gs : List GrantRfInfo) (b : Bool) (d : IapGrantDecision)
    (ds : List IapGrantDecision)
    → g.is_managing_sas ≡ b
    → (b ≡ true → Authorizes floor g d)
    → Decided floor gs ds
    → Decided floor (g ∷ gs) (if b then d ∷ ds else ds)
Decided-if floor g gs true d ds e h a = own (h refl) a
Decided-if floor g gs false d ds e h a = peer e a

stopped-Authorizes :
    (floor auth : ℤ) (e : IapGrant) (why : Explanation)
    → e.grant.is_managing_sas ≡ true
    → Authorizes floor e.grant (decision e terminate auth why)
unfolding decision Authorizes
stopped-Authorizes floor auth e why m = (m, refl, refl, refl, refl, inl refl)

held-Authorizes :
    (floor : ℤ) (e : IapGrant) (action : IapAction) (why : Explanation)
    → e.grant.is_managing_sas ≡ true
    → Within floor e.grant.max_eirp_dbm_mhz e.eirp
    → Authorizes floor e.grant (decision e action e.eirp why)
unfolding decision Authorizes
held-Authorizes floor e action why m h = (m, refl, refl, refl, refl, inr h)

decide-Authorizes :
    (r : IapRun) (cs : List IapChannel) (e : IapGrant)
    → Held r e
    → e.grant.is_managing_sas ≡ true
    → Authorizes r.config.eirp_floor_dbm_mhz e.grant (decide r cs e)
unfolding decide
decide-Authorizes r cs e h m =
    elim (Bool-cases (
      e.hit_floor
      || (not (has_locked e.locked cs) && e.removed && ltb_ℤ e.eirp e.grant.max_eirp_dbm_mhz))) [
        | inl stopped ↦ rw stopped (stopped-Authorizes _ _ e _ m)
        | inr held ↦
            let within = Held-Within r e _ h held in
            elim (Bool-cases (ltb_ℤ e.eirp e.grant.max_eirp_dbm_mhz)) [
              | inl lower ↦ rw (held, lower) (held-Authorizes _ e _ _ m within)
              | inr same ↦ rw (held, same) (held-Authorizes _ e _ _ m within)
            ]
      ]

decide_all-Decided :
    (r : IapRun) (cs : List IapChannel) (es : List IapGrant)
    → All (Held r) es
    → Decided r.config.eirp_floor_dbm_mhz (grants_of es) (decide_all r cs es)
unfolding decide_all
decide_all-Decided r cs [] a = no_grants
decide_all-Decided r cs (e ∷ es) a =
    Decided-if _ e.grant _ e.grant.is_managing_sas _ _ refl (decide-Authorizes r cs e a.0)
      (decide_all-Decided r cs es a.1)

keep_all-Decided :
    (floor : ℤ) (point : ProtectionPoint) (gs : List GrantRfInfo)
    → Decided floor gs (keep_all point gs)
unfolding keep_all Authorizes Within
keep_all-Decided floor point [] = no_grants
keep_all-Decided floor point (g ∷ gs) =
    Decided-if floor g gs g.is_managing_sas _ _ refl
      (λ m. (m, refl, refl, refl, refl, inr (ground arith, inl refl)))
      (keep_all-Decided floor point gs)

-- The decisions on all grants that were given, or, after an allocation, on the neighbors.
abbrev Covered :
    Engine → ProtectionPoint → List GrantRfInfo → List FrequencyChannel → List GrantRfInfo → Type 0
Covered engine point grants chs gs =
    Decided engine.config.eirp_floor_dbm_mhz grants (run_on engine point grants chs gs).decisions
    ⊎ Decided engine.config.eirp_floor_dbm_mhz gs (run_on engine point grants chs gs).decisions

run_on-Covered :
    (engine : Engine) (point : ProtectionPoint) (grants : List GrantRfInfo)
    → pos 0 ≤ℤ engine.config.eirp_step_db
    → (chs : List FrequencyChannel) (gs : List GrantRfInfo) → Covered engine point grants chs gs
unfolding run_on point_result run_of
run_on-Covered engine point grants s [] gs = inl (keep_all-Decided _ point grants)
run_on-Covered engine point grants s (c ∷ cs) [] = inl (keep_all-Decided _ point grants)
run_on-Covered engine point grants s (c ∷ cs) (g ∷ gs) =
    let r = run_of engine point in
    inr (
      subst
        (λ (hs : List GrantRfInfo).
          Decided r.config.eirp_floor_dbm_mhz hs (
            decide_all r (allocate r (g ∷ gs) (c ∷ cs)).1.channels
              (allocate r (g ∷ gs) (c ∷ cs)).0))
        (allocate_keeps r (g ∷ gs) (c ∷ cs))
        (decide_all-Decided r _ _ (allocate-Held r s (g ∷ gs) (c ∷ cs))))

-- If the step does not raise a power, a run at a point makes one decision on each grant of this SAS, either
-- of all grants that it is given or of those in the neighborhood, in their order: it names the grant and
-- the power that the grant came with, and either terminates the grant or authorizes at most that power,
-- and a lower one only down to the floor.
pub run_iap-Authorizes :
    (engine : Engine) (point : ProtectionPoint) (grants : List GrantRfInfo)
    → pos 0 ≤ℤ engine.config.eirp_step_db
    → Decided engine.config.eirp_floor_dbm_mhz grants
        (run_iap_for_point engine point grants).decisions
      ⊎ Decided engine.config.eirp_floor_dbm_mhz
          (grants_in_neighborhood engine.distance point grants)
          (run_iap_for_point engine point grants).decisions
unfolding run_iap_for_point
run_iap-Authorizes engine point grants s =
    run_on-Covered engine point grants s
      (overlapping_iap_channels engine.band_origin_hz point.low_hz point.high_hz)
      (grants_in_neighborhood engine.distance point grants)
