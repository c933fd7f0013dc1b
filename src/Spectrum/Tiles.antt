-- ===== src/Spectrum/Tiles.antt =====
-- services/spectrum_inquiry_service.py: `_split_10mhz` cuts the clipped range along the 10 MHz grid.
use sas_core.Prelude.{
  ℕ, zero, suc, ◌+◌, ◌-◌, ◌*◌, ◌/◌, ◌%◌, ◌≤◌, ◌<◌, ◌≡◌, refl, ◌⊎◌, List, [], ◌∷◌, min, max, arith,
}
use sas_core.Store.{Range}
use sas_core.Spectrum.Ranges.{cbrs_low_hz, cbrs_high_hz, channel_hz}
use sas_core.Spectrum.Split.{split_loop, align, split_clipped, split_10mhz}

-- The ranges follow one another from `start` to `end`, none is empty or wider than a channel, and
-- they meet on the grid.
abbrev pub TilesFrom : ℕ → ℕ → List Range → Type 0
TilesFrom start end [] = start ≡ end
TilesFrom start end (r ∷ rest) =
    (r.0 ≡ start)
    × (r.0 < r.1)
    × (r.1 ≤ r.0 + channel_hz)
    × ((r.1 ≡ end) ⊎ (r.1 % channel_hz ≡ 0))
    × TilesFrom r.1 end rest

split_loop-TilesFrom :
    (fuel cur end : ℕ)
    → cur ≤ end
    → cur % channel_hz ≡ 0
    → end < cur + fuel * channel_hz
    → TilesFrom cur end (split_loop fuel cur end)
unfolding split_loop
split_loop-TilesFrom zero cur end le grid room = absurd (omega arith)
split_loop-TilesFrom (suc fuel) cur end le grid room =
    ground (arith, split_loop-TilesFrom fuel (cur + channel_hz) end)

align_facts :
    (start : ℕ)
    → cbrs_low_hz ≤ start
    → (start ≤ align start) × (align start ≤ start + channel_hz) × (align start % channel_hz ≡ 0)
unfolding align
align_facts start h = ground arith

split_loop_past : (fuel cur end : ℕ) → end ≤ cur → split_loop fuel cur end ≡ []
unfolding split_loop
split_loop_past zero cur end h = refl
split_loop_past (suc fuel) cur end h = ground arith

split_clipped-TilesFrom :
    (start end : ℕ)
    → cbrs_low_hz ≤ start
    → start < end
    → TilesFrom start end (split_clipped start end)
unfolding split_clipped
split_clipped-TilesFrom start end low lt = ground (
  arith,
  align_facts start low,
  split_loop-TilesFrom ((end - align start) / channel_hz + 1) (align start) end,
  split_loop_past ((end - align start) / channel_hz + 1) (align start) end,
)

-- A range that meets the CBRS band is cut, from its clipped low edge to its clipped high edge, into
-- adjacent channels of at most 10 MHz whose inner edges are multiples of 10 MHz.
pub split-TilesFrom :
    (low high : ℕ)
    → max low cbrs_low_hz < min high cbrs_high_hz
    → TilesFrom (max low cbrs_low_hz) (min high cbrs_high_hz) (split_10mhz low high)
unfolding split_10mhz
split-TilesFrom low high h =
    ground (arith, split_clipped-TilesFrom (max low cbrs_low_hz) (min high cbrs_high_hz))
