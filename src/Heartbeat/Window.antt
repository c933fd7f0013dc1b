-- ===== src/Heartbeat/Window.antt =====
-- services/dpa_neighborhood.py: how long a CBSD may transmit before its next heartbeat.
use sas_core.Prelude.{ℕ, Bool, true, false, ltb, min, if◌then◌else◌, ◌≤◌, ◌<◌, ◌≡◌, ◌⊎◌, arith}
use sas_core.Clock.{trunc_sec, add_seconds}
use sas_core.Records.{Cbsd}
use sas_core.Store.{Store, Checks, DpaNeighborhoodStatus, inside, outside, indeterminate}
use sas_core.Spectrum.{overlaps}

abbrev pub transmit_expire_sec : ℕ
transmit_expire_sec = 60

abbrev pub dpa_neighborhood_transmit_expire_sec : ℕ
dpa_neighborhood_transmit_expire_sec = 240

-- 24 * 3600 - 60
abbrev pub max_transmit_expire_outside_sec : ℕ
max_transmit_expire_outside_sec = 86_340

abbrev pub dpa_tx_band_low_hz : ℕ
dpa_tx_band_low_hz = 3_550_000_000

abbrev pub dpa_tx_band_high_hz : ℕ
dpa_tx_band_high_hz = 3_650_000_000

unfoldable pub grant_overlaps_dpa_tx_expire_band : ℕ → ℕ → Bool
unfolding overlaps
grant_overlaps_dpa_tx_expire_band low high =
    overlaps low high dpa_tx_band_low_hz dpa_tx_band_high_hz

-- INSIDE or INDETERMINATE
unfoldable pub may_be_near : DpaNeighborhoodStatus → Bool
may_be_near inside = true
may_be_near indeterminate = true
may_be_near outside = false

unfoldable pub requires_dpa_neighborhood_tx_cap : Checks → Store → Cbsd → ℕ → ℕ → Bool
requires_dpa_neighborhood_tx_cap env db c low high =
    if grant_overlaps_dpa_tx_expire_band low high
    then may_be_near (env.dpa_neighborhood db c)
    else false

unfoldable pub transmit_expire_horizon_sec : Checks → Store → Cbsd → ℕ → ℕ → ℕ
transmit_expire_horizon_sec env db c low high =
    if requires_dpa_neighborhood_tx_cap env db c low high
    then min dpa_neighborhood_transmit_expire_sec max_transmit_expire_outside_sec
    else min transmit_expire_sec max_transmit_expire_outside_sec

unfoldable pub compute_transmit_expire_time : Checks → Store → Cbsd → ℕ → ℕ → ℕ → ℕ → ℕ
compute_transmit_expire_time env db c expire low high now =
    let tx = add_seconds (trunc_sec now) (transmit_expire_horizon_sec env db c low high) in
    if ltb (trunc_sec expire) tx then trunc_sec expire else tx

-- A transmission never outlasts the grant, nor 240 seconds from the clock reading.
pub transmit_ends :
    (env : Checks) (db : Store) (c : Cbsd) (expire low high now : ℕ)
    → (compute_transmit_expire_time env db c expire low high now ≤ expire)
      × (compute_transmit_expire_time env db c expire low high now ≤ add_seconds now 240)
unfolding compute_transmit_expire_time transmit_expire_horizon_sec requires_dpa_neighborhood_tx_cap
transmit_ends env db c expire low high now = ground arith

-- What a transmission ends with: the grant, or `seconds` from the clock reading, in whole seconds.
abbrev pub Ends : ℕ → ℕ → ℕ → ℕ → Type 0
Ends seconds expire now tx = tx ≡ min (trunc_sec expire) (add_seconds (trunc_sec now) seconds)

-- In whole seconds, a transmission ends with the grant or 240 seconds after the clock reading, whichever
-- is first, if the grant overlaps 3550-3650 MHz and the CBSD is inside a DPA neighborhood or that is
-- indeterminate; in every other case it is 60 seconds.
pub transmit_window :
    (env : Checks) (db : Store) (c : Cbsd) (expire low high now : ℕ)
    → ((low < 3_650_000_000)
        × (3_550_000_000 < high)
        × ((env.dpa_neighborhood db c ≡ inside) ⊎ (env.dpa_neighborhood db c ≡ indeterminate))
        × Ends 240 expire now (compute_transmit_expire_time env db c expire low high now))
      ⊎ (((3_650_000_000 ≤ low) ⊎ (high ≤ 3_550_000_000) ⊎ (env.dpa_neighborhood db c ≡ outside))
          × Ends 60 expire now (compute_transmit_expire_time env db c expire low high now))
unfolding compute_transmit_expire_time transmit_expire_horizon_sec requires_dpa_neighborhood_tx_cap
    grant_overlaps_dpa_tx_expire_band overlaps may_be_near
transmit_window env db c expire low high now = ground arith
