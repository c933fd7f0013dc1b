-- ===== src/RateLimit.antt =====
-- services/rate_limit.py: the token bucket of a client.
pub mod Bounded
use sas_core.Prelude.{
  ℕ, ◌+◌, ◌-◌, ◌*◌, min, String, Bool, true, false, ◌||◌, Option, none, some, List, [], ◌∷◌, ltb,
  nat_beq, if◌then◌else◌, ◌==◌, string_eq,
}

-- Times are in microseconds, the settings in millionths (of a token per second, and of a token) and tokens
-- in millionths of a millionth, which is what a millionth of the rate gives in a microsecond.
pub record TokenBucket : Type 0 where
  pub tokens : ℕ
  pub updated_at : ℕ

-- A setting at or below 0 is 0.
pub record RateSettings : Type 0 where
  pub per_second : ℕ
  pub burst : ℕ

abbrev pub millionth : ℕ
millionth = 1000000

abbrev pub whole_token : ℕ
whole_token = 1000000000000

-- A new bucket is full; it is made after the clock was read, so nothing has elapsed then.
unfoldable pub new_bucket : RateSettings → ℕ → TokenBucket
new_bucket s now = record { tokens = s.burst * millionth; updated_at = now }

-- The tokens after what has elapsed.
unfoldable pub refill : RateSettings → TokenBucket → ℕ → ℕ
refill s b now = min (s.burst * millionth) (b.tokens + (now - b.updated_at) * s.per_second)

unfoldable pub take_token : RateSettings → TokenBucket → ℕ → Bool × TokenBucket
take_token s b now =
    if ltb (refill s b now) whole_token
    then (false, record { tokens = refill s b now; updated_at = now })
    else (true, record { tokens = refill s b now - whole_token; updated_at = now })

abbrev pub Buckets : Type 0
Buckets = List (String × TokenBucket)

unfoldable pub find_bucket : Buckets → String → Option TokenBucket
find_bucket [] key = none
find_bucket ((k, b) ∷ rest) key =
    let later = find_bucket rest key in if k == key then some b else later

unfoldable pub bucket_or_new : RateSettings → ℕ → Option TokenBucket → TokenBucket
bucket_or_new s now none = new_bucket s now
bucket_or_new s now (some b) = b

unfoldable pub put_bucket : Buckets → String → TokenBucket → Buckets
put_bucket [] key b = (key, b) ∷ []
put_bucket ((k, old) ∷ rest) key b =
    let others = put_bucket rest key b in if k == key then (k, b) ∷ rest else (k, old) ∷ others

unfoldable pub store_bucket : Buckets → String → Bool × TokenBucket → Bool × Buckets
store_bucket bs key r = (r.0, put_bucket bs key r.1)

unfoldable pub allow : RateSettings → Buckets → String → ℕ → Bool × Buckets
allow s bs key now =
    if nat_beq s.per_second 0 || nat_beq s.burst 0
    then (true, bs)
    else store_bucket bs key (take_token s (bucket_or_new s now (find_bucket bs key)) now)

-- The requests of one client at the times `times`: how many are allowed, and the buckets after them.
unfoldable pub allow_all : RateSettings → Buckets → String → List ℕ → ℕ × Buckets
allow_all s bs key [] = (0, bs)
allow_all s bs key (now ∷ times) =
    let here = allow s bs key now in
    let rest = allow_all s here.1 key times in ((if here.0 then 1 else 0) + rest.0, rest.1)
