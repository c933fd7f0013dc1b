-- ===== src/Iap/Rounds.antt =====
-- services/iap/engine.py: the rounds of `run_iap_for_point`.
use sas_core.Prelude.{
  ℕ, zero, suc, ◌+◌, ◌-◌, ◌*◌, Bool, true, false, ◌&&◌, ◌||◌, not, Option, none, some, List, [],
  ◌∷◌, map, length, ltb, nat_beq, if◌then◌else◌,
}
use sas_core.Prelude.Int.{ℤ, pos, negsuc, ◌-ℤ◌, ltb_ℤ}
use sas_core.Iap.Points.{ProtectionPoint, GrantRfInfo, FrequencyChannel, grant_overlaps_channel}

pub record IapEngineConfig : Type 0 where
  pub eirp_floor_dbm_mhz : ℤ
  pub eirp_step_db : ℤ
  pub max_iterations : ℕ

unfoldable pub default_config : IapEngineConfig
default_config = record {
  eirp_floor_dbm_mhz = negsuc 136999;
  eirp_step_db = pos 1000;
  max_iterations = 10000;
}

-- What a run keeps fixed. Interference is counted in a unit of power, `threshold_mw` too.
pub record IapRun : Type 0 where
  pub point : ProtectionPoint
  pub coupling : GrantRfInfo → ProtectionPoint → FrequencyChannel → ℤ → ℕ
  pub threshold_mw : ℕ
  pub config : IapEngineConfig

-- One place of the arrays `eirp`, `satisfied`, `removed` and `hit_floor`; `locked` has the entries of
-- `locked_interf` for this grant by the channel's index, the latest first.
pub record IapGrant : Type 0 where
  pub grant : GrantRfInfo
  pub eirp : ℤ
  pub satisfied : Bool
  pub removed : Bool
  pub hit_floor : Bool
  pub locked : List (ℕ × ℕ)

-- One place of `iap_threshold_ch` and `unsat_count_ch`: what has been taken from the threshold, and the
-- grants that share the rest. `fairshare_ch` is always the rest over their number.
pub record IapChannel : Type 0 where
  pub index : ℕ
  pub channel : FrequencyChannel
  pub taken : ℕ
  pub unsat_count : ℕ

pub record Tally : Type 0 where
  pub channels : List IapChannel
  pub num_unsatisfied : ℕ
  pub newly_locked : ℕ

unfoldable pub is_on : IapRun → GrantRfInfo → IapChannel → Bool
is_on r g c = grant_overlaps_channel g c.channel r.point.entity_kind

unfoldable pub interference_of : IapRun → IapGrant → IapChannel → ℕ
interference_of r e c = r.coupling e.grant r.point c.channel e.eirp

-- `interf < (threshold - taken) / unsat_count`, and `interf < 0.0` where no grant is left.
unfoldable pub is_below_fairshare : IapRun → IapChannel → ℕ → Bool
is_below_fairshare r c interf =
    ltb 0 c.unsat_count && ltb (interf * c.unsat_count + c.taken) r.threshold_mw

-- The loop over the channels: whether the grant is satisfied, and the locked interference.
unfoldable pub judge :
    IapRun → IapGrant → List IapChannel → Bool → List (ℕ × ℕ) → Bool × List (ℕ × ℕ)
judge r e [] saw locked = (saw, locked)
judge r e (c ∷ cs) saw locked =
    let on = is_on r e.grant c in
    let interf = interference_of r e c in
    let rest = judge r e cs (saw || on) (if on then (c.index, interf) ∷ locked else locked) in
    if on && not (is_below_fairshare r c interf) then (false, locked) else rest

unfoldable pub mark_satisfied : IapGrant → Bool × List (ℕ × ℕ) → IapGrant
mark_satisfied e verdict = record e { satisfied = verdict.0; locked = verdict.1 }

unfoldable pub judge_grant : IapRun → List IapChannel → IapGrant → IapGrant
judge_grant r cs e =
    if e.removed || e.satisfied then e else mark_satisfied e (judge r e cs false e.locked)

-- `locked_interf.get(...)`
unfoldable pub locked_at : List (ℕ × ℕ) → ℕ → Option ℕ
locked_at [] i = none
locked_at ((k, v) ∷ rest) i = let later = locked_at rest i in if nat_beq k i then some v else later

unfoldable pub or_coupling : IapRun → IapGrant → IapChannel → Option ℕ → ℕ
or_coupling r e c none = interference_of r e c
or_coupling r e c (some v) = v

unfoldable pub locked_or_coupling : IapRun → IapGrant → IapChannel → ℕ
locked_or_coupling r e c = or_coupling r e c (locked_at e.locked c.index)

unfoldable pub lock_channel : IapRun → IapGrant → IapChannel → IapChannel
lock_channel r e c =
    if is_on r e.grant c
    then record c { taken = c.taken + locked_or_coupling r e c; unsat_count = c.unsat_count - 1 }
    else c

unfoldable pub is_missing_at : Option ℕ → Bool
is_missing_at none = true
is_missing_at (some v) = false

-- The entries that are missing are added.
unfoldable pub lock_entries : IapRun → IapGrant → List IapChannel → List (ℕ × ℕ) → List (ℕ × ℕ)
lock_entries r e [] locked = locked
lock_entries r e (c ∷ cs) locked = lock_entries r e cs (
    if is_on r e.grant c && is_missing_at (locked_at locked c.index)
    then (c.index, interference_of r e c) ∷ locked
    else locked)

unfoldable pub lock_grant : IapRun → IapGrant → Tally → IapGrant × Tally
lock_grant r e t = if e.removed || not e.satisfied then (e, t) else (
  record e { removed = true; locked = lock_entries r e t.channels e.locked },
  record {
    channels = map (lock_channel r e) t.channels;
    num_unsatisfied = t.num_unsatisfied - 1;
    newly_locked = suc t.newly_locked;
  },
)

unfoldable pub leave_channel : IapRun → IapGrant → IapChannel → IapChannel
leave_channel r e c = if is_on r e.grant c then record c { unsat_count = c.unsat_count - 1 } else c

unfoldable pub lower_grant : IapRun → IapGrant → ℤ → Tally → IapGrant × Tally
lower_grant r e eirp t =
    if ltb_ℤ eirp r.config.eirp_floor_dbm_mhz
    then (
      record e { eirp = eirp; hit_floor = true; removed = true; satisfied = true },
      record t {
        channels = map (leave_channel r e) t.channels;
        num_unsatisfied = t.num_unsatisfied - 1;
      },
    )
    else (record e { eirp = eirp }, t)

unfoldable pub drop_grant : IapRun → IapGrant → Tally → IapGrant × Tally
drop_grant r e t =
    if e.removed || e.satisfied then (e, t) else lower_grant r e (e.eirp -ℤ r.config.eirp_step_db) t

-- A loop over the grants.
unfoldable pub for_grants :
    (IapGrant → Tally → IapGrant × Tally) → List IapGrant → Tally → List IapGrant × Tally
for_grants step [] t = ([], t)
for_grants step (e ∷ es) t =
    let here = step e t in let rest = for_grants step es here.1 in (here.0 ∷ rest.0, rest.1)

unfoldable pub lock_all : IapRun → List IapGrant × Tally → List IapGrant × Tally
lock_all r p =
    for_grants (lock_grant r) (map (judge_grant r p.1.channels) p.0)
      (record p.1 { newly_locked = 0 })

unfoldable pub iap_round : IapRun → List IapGrant × Tally → List IapGrant × Tally
iap_round r p =
    let q = lock_all r p in if ltb 0 q.1.newly_locked then q else for_grants (drop_grant r) q.0 q.1

unfoldable pub iap_rounds : ℕ → IapRun → List IapGrant × Tally → List IapGrant × Tally
iap_rounds zero r p = p
iap_rounds (suc n) r p =
    let rest = iap_rounds n r (iap_round r p) in if ltb 0 p.1.num_unsatisfied then rest else p

unfoldable pub new_entry : GrantRfInfo → IapGrant
new_entry g = record {
  grant = g;
  eirp = g.max_eirp_dbm_mhz;
  satisfied = false;
  removed = false;
  hit_floor = false;
  locked = [];
}

unfoldable pub count_on : IapRun → FrequencyChannel → List GrantRfInfo → ℕ
count_on r c [] = 0
count_on r c (g ∷ gs) =
    let rest = count_on r c gs in
    if grant_overlaps_channel g c r.point.entity_kind then suc rest else rest

unfoldable pub new_channels :
    IapRun → List GrantRfInfo → ℕ → List FrequencyChannel → List IapChannel
new_channels r gs i [] = []
new_channels r gs i (c ∷ cs) =
    record { index = i; channel = c; taken = 0; unsat_count = count_on r c gs }
    ∷ new_channels r gs (suc i) cs

-- The while loop, from the initial arrays.
unfoldable pub allocate : IapRun → List GrantRfInfo → List FrequencyChannel → List IapGrant × Tally
allocate r neighbors channels = iap_rounds r.config.max_iterations r (
  map new_entry neighbors,
  record {
    channels = new_channels r neighbors 0 channels;
    num_unsatisfied = length neighbors;
    newly_locked = 0;
  },
)
