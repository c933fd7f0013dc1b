-- ===== src/Examples/Limits.antt =====
-- services/rate_limit.py: the bound of the rate limit, applied to a client with four requests.
use sas_core.Prelude.{◌+◌, ◌-◌, ◌*◌, ◌≤◌, refl, [], ◌∷◌, arith}
use sas_core.RateLimit.{RateSettings, millionth, whole_token, find_bucket, allow_all}
use sas_core.RateLimit.Bounded.{last_time, Ascending, allow_all_bound}

abbrev strict : RateSettings
strict = record { per_second = 2_500_000; burst = 3_000_000 }

allow_all_bound_example :
    (allow_all strict [] "ip:10.0.0.1" (100 ∷ 200 ∷ 300 ∷ 900 ∷ [])).0 * whole_token
    ≤ 3_000_000 * millionth + (last_time 100 (200 ∷ 300 ∷ 900 ∷ []) - 100) * 2_500_000
unfolding Ascending find_bucket
allow_all_bound_example =
    allow_all_bound strict [] "ip:10.0.0.1" 100 (200 ∷ 300 ∷ 900 ∷ []) refl refl
      (omega arith, (omega arith, (omega arith, tt)))
