-- ===== src/Examples/Allocations.antt =====
-- services/iap/engine.py: the theorems of the allocation, applied to two grants at one point.
use sas_core.Prelude.{ℕ, true, false, ◌≡◌, refl, none, some, [], ◌∷◌, All, arith}
use sas_core.Prelude.{◌⊎◌, List}
use sas_core.Iap.Points.{grants_in_neighborhood}
use sas_core.Prelude.Int.{ℤ, pos, negsuc, pos_part}
use sas_core.Iap.Points.{generic, ProtectionPoint, GrantRfInfo, FrequencyChannel}
use sas_core.Iap.Rounds.{IapRun, IapGrant, default_config, allocate}
use sas_core.Iap.Terminates.{allocate_ends}
use sas_core.Iap.Decisions.{IapAction, keep, terminate, IapPointResult, within_fairshare}
use sas_core.Iap.Merge.{merge_iap_decisions}
use sas_core.Iap.Decisions.{Engine, run_iap_for_point}
use sas_core.Iap.Powers.{Decided, run_iap-Authorizes}
use sas_core.Iap.Severity.{severity, severity_of_points, merge_iap-severity}

abbrev lake : ProtectionPoint
lake = record {
  point_id = "lake";
  latitude = pos 40000000;
  longitude = negsuc 99999999;
  low_hz = 3650000000;
  high_hz = 3655000000;
  threshold_dbm = negsuc 79999;
  entity_kind = generic;
  pre_iap_margin_db = 1000;
  neighborhood_km = none;
}

abbrev tower : ℕ → ℤ → GrantRfInfo
tower pk eirp = record {
  grant_id = "tower";
  cbsd_id = "cbsd";
  latitude = pos 40000000;
  longitude = negsuc 99999999;
  height_m = pos 6000000;
  height_is_agl = true;
  indoor = false;
  low_hz = 3650000000;
  high_hz = 3660000000;
  max_eirp_dbm_mhz = eirp;
  is_managing_sas = true;
  grant_pk = some pk;
  cbsd_category = "A";
  antenna_azimuth_deg = none;
  antenna_beamwidth_deg = none;
  antenna_gain_dbi = none;
}

abbrev channel : FrequencyChannel
channel = record { low_hz = 3650000000; high_hz = 3655000000 }

-- A coupling that grows with the power.
abbrev lake_run : IapRun
lake_run = record {
  point = lake;
  coupling = λ g p c eirp. pos_part eirp;
  threshold_mw = 50000;
  config = default_config;
}

allocate_ends_example :
    ((allocate lake_run
        (tower 1 (pos 20000) ∷ tower 2 (pos 30000) ∷ [])
        (channel ∷ [])).1.num_unsatisfied
      ≡ 0)
    × All
        (λ (e : IapGrant). e.removed ≡ true)
        (allocate lake_run (tower 1 (pos 20000) ∷ tower 2 (pos 30000) ∷ []) (channel ∷ [])).0
allocate_ends_example =
    allocate_ends lake_run (tower 1 (pos 20000) ∷ tower 2 (pos 30000) ∷ []) (channel ∷ []) refl
      (omega arith, (omega arith, tt)) (omega arith)

abbrev result : IapAction → IapPointResult
result action = record {
  point = lake;
  channels = channel ∷ [];
  aggregates = [];
  decisions =
      record {
        grant_id = "tower";
        cbsd_id = "cbsd";
        grant_pk = some 1;
        action = action;
        authorized_eirp_dbm_mhz = pos 20000;
        initial_eirp_dbm_mhz = pos 20000;
        explanation = within_fairshare "lake" (pos 20000) ∷ [];
      }
      ∷ [];
}

merge_iap-severity_example :
    severity "tower" (merge_iap_decisions (result keep ∷ result terminate ∷ result keep ∷ []))
    ≡ severity_of_points "tower" (result keep ∷ result terminate ∷ result keep ∷ [])
merge_iap-severity_example =
    merge_iap-severity (result keep ∷ result terminate ∷ result keep ∷ []) "tower"

abbrev engine : Engine
engine = record {
  coupling = λ g p c eirp. pos_part eirp;
  distance = λ g p. 0;
  dbm_to_mw = λ level. 50000;
  band_origin_hz = 3550000000;
  config = default_config;
}

abbrev towers : List GrantRfInfo
towers = tower 1 (pos 20000) ∷ tower 2 (pos 30000) ∷ []

run_iap-Authorizes_example :
    Decided (negsuc 136999) towers (run_iap_for_point engine lake towers).decisions
    ⊎ Decided
        (negsuc 136999)
        (grants_in_neighborhood engine.distance lake towers)
        (run_iap_for_point engine lake towers).decisions
unfolding default_config
run_iap-Authorizes_example = run_iap-Authorizes engine lake towers (omega arith)
