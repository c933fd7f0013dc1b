-- ===== src/Iap/Decisions.antt =====
-- services/iap/engine.py: the aggregates and decisions of `run_iap_for_point`, their merge, `run_iap`.
use sas_core.Prelude.{
  ℕ, ◌+◌, max, String, Bool, false, ◌&&◌, ◌||◌, not, Option, List, [], ◌∷◌, map, length, leb,
  if◌then◌else◌, string_eq,
}
use sas_core.Prelude.Int.{ℤ, ◌-ℤ◌, pos, ltb_ℤ}
use sas_core.Iap.Points.{
  ProtectionPoint, GrantRfInfo, FrequencyChannel, overlapping_iap_channels, grants_in_neighborhood,
}
use sas_core.Iap.Rounds.{
  IapEngineConfig, IapRun, IapGrant, IapChannel, Tally, is_on, is_missing_at, locked_at,
  locked_or_coupling, allocate,
}

pub data IapAction : Type 0 where
  keep : IapAction
  reduce_power : IapAction
  suspend : IapAction
  terminate : IapAction

-- The sentences of an explanation, by what they say.
pub data Explanation : Type 0 where
  no_channels : String → Explanation
  below_floor : String → ℤ → Explanation
  power_reduced : String → ℤ → ℤ → Explanation
  within_fairshare : String → ℤ → Explanation

pub record IapGrantDecision : Type 0 where
  pub grant_id : String
  pub cbsd_id : String
  pub grant_pk : Option ℕ
  pub action : IapAction
  pub authorized_eirp_dbm_mhz : ℤ
  pub initial_eirp_dbm_mhz : ℤ
  pub explanation : List Explanation

pub record GrantChannelContribution : Type 0 where
  pub grant_id : String
  pub channel : FrequencyChannel
  pub interference_mw : ℕ
  pub eirp_dbm_mhz : ℤ

-- `fairshare_mw` is the threshold over `sharers`.
pub record ChannelAggregateResult : Type 0 where
  pub channel : FrequencyChannel
  pub aggregate_mw : ℕ
  pub managing_sas_mw : ℕ
  pub threshold_mw : ℕ
  pub sharers : ℕ
  pub within_threshold : Bool

pub record IapPointResult : Type 0 where
  pub point : ProtectionPoint
  pub channels : List FrequencyChannel
  pub aggregates : List ChannelAggregateResult
  pub decisions : List IapGrantDecision

pub record IapRunResult : Type 0 where
  pub points : List IapPointResult
  pub merged_decisions : List IapGrantDecision

unfoldable pub contributes : IapRun → IapChannel → IapGrant → Bool
contributes r c e =
    is_on r e.grant c && not (e.removed && is_missing_at (locked_at e.locked c.index))

unfoldable pub contributions : IapRun → IapChannel → List IapGrant → List GrantChannelContribution
contributions r c [] = []
contributions r c (e ∷ es) =
    let rest = contributions r c es in
    if contributes r c e
    then record {
      grant_id = e.grant.grant_id;
      channel = c.channel;
      interference_mw = locked_or_coupling r e c;
      eirp_dbm_mhz = e.eirp;
    }
      ∷ rest
    else rest

unfoldable pub managing_mw : IapRun → IapChannel → List IapGrant → ℕ
managing_mw r c [] = 0
managing_mw r c (e ∷ es) =
    let rest = managing_mw r c es in
    if contributes r c e && e.grant.is_managing_sas then locked_or_coupling r e c + rest else rest

unfoldable pub sum_interference_mw : List GrantChannelContribution → ℕ
sum_interference_mw [] = 0
sum_interference_mw (c ∷ cs) = c.interference_mw + sum_interference_mw cs

-- The tolerance of the comparison is below the unit of power.
unfoldable pub aggregate : IapRun → List IapGrant → IapChannel → ChannelAggregateResult
aggregate r es c =
    let contribs = contributions r c es in
    let agg = sum_interference_mw contribs in
    record {
      channel = c.channel;
      aggregate_mw = agg;
      managing_sas_mw = managing_mw r c es;
      threshold_mw = r.threshold_mw;
      sharers = max 1 (length contribs);
      within_threshold = leb agg r.threshold_mw;
    }

unfoldable pub has_locked : List (ℕ × ℕ) → List IapChannel → Bool
has_locked locked [] = false
has_locked locked (c ∷ cs) = not (is_missing_at (locked_at locked c.index)) || has_locked locked cs

unfoldable pub decision : IapGrant → IapAction → ℤ → Explanation → IapGrantDecision
decision e action auth explanation = record {
  grant_id = e.grant.grant_id;
  cbsd_id = e.grant.cbsd_id;
  grant_pk = e.grant.grant_pk;
  action = action;
  authorized_eirp_dbm_mhz = auth;
  initial_eirp_dbm_mhz = e.grant.max_eirp_dbm_mhz;
  explanation = explanation ∷ [];
}

unfoldable pub decide : IapRun → List IapChannel → IapGrant → IapGrantDecision
decide r cs e =
    let initial = e.grant.max_eirp_dbm_mhz in
    let name = r.point.point_id in
    let floor = r.config.eirp_floor_dbm_mhz in
    if e.hit_floor || (not (has_locked e.locked cs) && e.removed && ltb_ℤ e.eirp initial)
    then decision e terminate floor (below_floor name floor)
    else if ltb_ℤ e.eirp initial
    then decision e reduce_power e.eirp (power_reduced name initial e.eirp)
    else decision e keep e.eirp (within_fairshare name e.eirp)

unfoldable pub decide_all : IapRun → List IapChannel → List IapGrant → List IapGrantDecision
decide_all r cs [] = []
decide_all r cs (e ∷ es) =
    let rest = decide_all r cs es in if e.grant.is_managing_sas then decide r cs e ∷ rest else rest

unfoldable pub keep_all : ProtectionPoint → List GrantRfInfo → List IapGrantDecision
keep_all point [] = []
keep_all point (g ∷ gs) =
    let rest = keep_all point gs in
    if g.is_managing_sas
    then record {
      grant_id = g.grant_id;
      cbsd_id = g.cbsd_id;
      grant_pk = g.grant_pk;
      action = keep;
      authorized_eirp_dbm_mhz = g.max_eirp_dbm_mhz;
      initial_eirp_dbm_mhz = g.max_eirp_dbm_mhz;
      explanation = no_channels point.point_id ∷ [];
    }
      ∷ rest
    else rest

-- What the engine takes from elsewhere: the radio coupling, the distance of a grant from a point, the
-- power of a level, and the lower edge of the band.
pub record Engine : Type 0 where
  pub coupling : GrantRfInfo → ProtectionPoint → FrequencyChannel → ℤ → ℕ
  pub distance : GrantRfInfo → ProtectionPoint → ℕ
  pub dbm_to_mw : ℤ → ℕ
  pub band_origin_hz : ℕ
  pub config : IapEngineConfig

unfoldable pub run_of : Engine → ProtectionPoint → IapRun
run_of engine point = record {
  point = point;
  coupling = engine.coupling;
  threshold_mw = engine.dbm_to_mw (point.threshold_dbm -ℤ pos point.pre_iap_margin_db);
  config = engine.config;
}

unfoldable pub point_result :
    IapRun → List FrequencyChannel → List IapGrant × Tally → IapPointResult
point_result r channels p = record {
  point = r.point;
  channels = channels;
  aggregates = map (aggregate r p.0) p.1.channels;
  decisions = decide_all r p.1.channels p.0;
}

-- The early return without channels or neighbors, and the run.
unfoldable pub run_on :
    Engine
    → ProtectionPoint
    → List GrantRfInfo
    → List FrequencyChannel
    → List GrantRfInfo
    → IapPointResult
run_on engine point grants [] neighbors = record {
  point = point;
  channels = [];
  aggregates = [];
  decisions = keep_all point grants;
}
run_on engine point grants (c ∷ cs) [] = record {
  point = point;
  channels = c ∷ cs;
  aggregates = [];
  decisions = keep_all point grants;
}
run_on engine point grants (c ∷ cs) (g ∷ gs) =
    point_result (run_of engine point) (c ∷ cs) (allocate (run_of engine point) (g ∷ gs) (c ∷ cs))

unfoldable pub run_iap_for_point : Engine → ProtectionPoint → List GrantRfInfo → IapPointResult
run_iap_for_point engine point grants =
    run_on engine point grants
      (overlapping_iap_channels engine.band_origin_hz point.low_hz point.high_hz)
      (grants_in_neighborhood engine.distance point grants)
