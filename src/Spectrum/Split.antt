-- ===== src/Spectrum/Split.antt =====
-- services/spectrum_inquiry_service.py: `_split_10mhz`.
use sas_core.Prelude.{
  ℕ, zero, suc, ◌+◌, ◌-◌, ◌*◌, ◌/◌, ◌%◌, true, false, ◌&&◌, List, [], ◌∷◌, ◌++◌, ltb, leb, min, max,
  nat_beq, if◌then◌else◌,
}
use sas_core.Store.{Range}
use sas_core.Spectrum.Ranges.{cbrs_low_hz, cbrs_high_hz, channel_hz}

-- `while cur + CHANNEL_HZ <= end`, and the tail after it. The fuel bounds the rounds.
unfoldable pub split_loop : ℕ → ℕ → ℕ → List Range
split_loop zero cur end = []
split_loop (suc fuel) cur end = elim (leb (cur + channel_hz) end) [
  | true ↦ (cur, cur + channel_hz) ∷ split_loop fuel (cur + channel_hz) end
  | false ↦ if ltb cur end then (cur, end) ∷ [] else []
]

-- The first grid point of the walk.
unfoldable pub align : ℕ → ℕ
align start =
    let up = (start + channel_hz - 1) / channel_hz * channel_hz in
    if nat_beq (start % channel_hz) 0
    then start
    else if leb start (up - channel_hz) && leb cbrs_low_hz (up - channel_hz)
    then up - channel_hz
    else up

-- The channels of a clipped range.
unfoldable pub split_clipped : ℕ → ℕ → List Range
split_clipped start end =
    let aligned = align start in
    (if ltb start aligned && ltb start (min aligned end) then (start, min aligned end) ∷ [] else [])
    ++ split_loop ((end - aligned) / channel_hz + 1) aligned end

unfoldable pub split_10mhz : ℕ → ℕ → List Range
split_10mhz low high =
    let start = max low cbrs_low_hz in
    let end = min high cbrs_high_hz in if leb end start then [] else split_clipped start end
