-- ===== src/Spectrum/Request.antt =====
-- The parts of a request as the services read them, and `_validate_inquired`.
use sas_core.Prelude.{ℕ, ◌||◌, List, [], ◌∷◌, if◌then◌else◌}
use sas_core.Prelude.Int.{ℤ, pos, pos_part, ltb_ℤ, leb_ℤ}
use sas_core.Codes.{missing_param, invalid_param, unsupported_spectrum}
use sas_core.Store.{Range}
use sas_core.Spectrum.Ranges.{cbrs_low_hz, cbrs_high_hz}

-- A key of a dictionary: not there, None, a value that `int()` reads, or one on which it raises.
pub data Field : Type 0 where
  absent null malformed : Field
  int : ℤ → Field

-- An entry of `inquiredSpectrum`.
pub data RawRange : Type 0 where
  not_a_dict : RawRange
  range : Field → Field → RawRange

-- A key that should hold a list.
pub data RawList (A : Type 0) : Type 0 where
  no_list : RawList A
  items : List A → RawList A

pub data Result {ℓ} (A : Type ℓ) : Type ℓ where
  ok : A → Result A
  err : ℕ → Result A

infixl 5 ◌>>=◌
abbrev pub ◌>>=◌ {ℓ κ} : {A : Type ℓ} {B : Type κ} → Result A → (A → Result B) → Result B
ok a >>= f = f a
err c >>= f = err c

-- Order and band of a pair of integers.
unfoldable pub check_bounds : ℤ → ℤ → Result Range
check_bounds low high =
    if leb_ℤ high low
    then err invalid_param
    else if ltb_ℤ low (pos cbrs_low_hz) || ltb_ℤ (pos cbrs_high_hz) high
    then err unsupported_spectrum
    else ok (pos_part low, pos_part high)

-- One pair of keys, `lowFrequency` and `highFrequency`.
unfoldable pub check_fields : Field → Field → Result Range
unfolding check_bounds
check_fields absent high = err missing_param
check_fields low absent = err missing_param
check_fields null high = err missing_param
check_fields low null = err missing_param
check_fields (int low) (int high) = check_bounds low high
check_fields _ _ = err invalid_param

unfoldable pub check_range : RawRange → Result Range
unfolding check_fields
check_range not_a_dict = err missing_param
check_range (range low high) = check_fields low high

-- The first error, or every range.
unfoldable pub check_all : List RawRange → Result (List Range)
unfolding check_range
check_all [] = ok []
check_all (r ∷ rest) = do first ← check_range r; others ← check_all rest; ok (first ∷ others)

unfoldable pub validate_inquired : RawList RawRange → Result (List Range)
unfolding check_all
validate_inquired no_list = err missing_param
validate_inquired (items []) = err missing_param
validate_inquired (items (r ∷ rest)) = check_all (r ∷ rest)
