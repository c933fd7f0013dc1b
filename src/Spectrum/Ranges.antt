-- ===== src/Spectrum/Ranges.antt =====
-- services/spectrum_inquiry_service.py: overlap, and the removal of one range from a list of ranges.
use sas_core.Prelude.{
  ℕ, Bool, ◌&&◌, List, [], ◌∷◌, ◌++◌, ltb, leb, any, keep, min, max, if◌then◌else◌,
}
use sas_core.Store.{Range}

abbrev pub cbrs_low_hz : ℕ
cbrs_low_hz = 3_550_000_000

abbrev pub cbrs_high_hz : ℕ
cbrs_high_hz = 3_700_000_000

abbrev pub channel_hz : ℕ
channel_hz = 10_000_000

unfoldable pub overlaps : ℕ → ℕ → ℕ → ℕ → Bool
overlaps a_low a_high b_low b_high = ltb a_low b_high && ltb b_low a_high

-- What the loop appends for one segment.
unfoldable pub subtract_one : ℕ → ℕ → ℕ → ℕ → List Range
unfolding overlaps
subtract_one low high ex_low ex_high =
    if overlaps low high ex_low ex_high
    then (if ltb low ex_low then (low, min high ex_low) ∷ [] else [])
      ++ (if ltb ex_high high then (max low ex_high, high) ∷ [] else [])
    else (low, high) ∷ []

unfoldable pub subtract_all : List Range → ℕ → ℕ → List Range
unfolding subtract_one
subtract_all [] ex_low ex_high = []
subtract_all ((low, high) ∷ rest) ex_low ex_high =
    subtract_one low high ex_low ex_high ++ subtract_all rest ex_low ex_high

unfoldable pub is_nonempty : Range → Bool
is_nonempty (low, high) = ltb low high

unfoldable pub subtract_range : List Range → ℕ → ℕ → List Range
unfolding subtract_all is_nonempty
subtract_range segments ex_low ex_high = keep is_nonempty (subtract_all segments ex_low ex_high)

-- A frequency lies in a range, or in one of a list of them.
abbrev pub within : ℕ → Range → Bool
within f r = leb r.0 f && ltb f r.1

abbrev pub covers : ℕ → List Range → Bool
covers f rs = any (within f) rs
