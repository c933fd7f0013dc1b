-- ===== src/Clock.antt =====
-- services/clock.py. A time is a count of microseconds in UTC, so `ensure_utc` changes nothing.
-- The clock is an argument, `now`, read once for each request.
use sas_core.Prelude.{ℕ, ◌+◌, ◌*◌, ◌/◌}

abbrev pub second : ℕ
second = 1000000

-- `t.replace(microsecond=0)`
abbrev pub trunc_sec : ℕ → ℕ
trunc_sec t = t / second * second

-- `t + timedelta(seconds=n)`
abbrev pub add_seconds : ℕ → ℕ → ℕ
add_seconds t n = t + n * second
