-- ===== src/Spectrum/SubtractExact.antt =====
-- services/spectrum_inquiry_service.py: `_subtract_range` removes the frequencies of one range.
use sas_core.Prelude.{ℕ, ◌&&◌, ◌||◌, not, ◌≡◌, refl, List, [], ◌∷◌, ◌++◌, keep, arith, ◌∙◌}
use sas_core.Store.{Range}
use sas_core.Spectrum.Ranges.{
  subtract_one, subtract_all, is_nonempty, subtract_range, within, covers,
}

pub covers-append :
    (f : ℕ) (xs ys : List Range) → covers f (xs ++ ys) ≡ (covers f xs || covers f ys)
covers-append f [] ys = refl
covers-append f (x ∷ xs) ys = ground (arith, covers-append f xs ys)

covers-nonempty : (f : ℕ) (xs : List Range) → covers f (keep is_nonempty xs) ≡ covers f xs
unfolding is_nonempty
covers-nonempty f [] = refl
covers-nonempty f ((lo, hi) ∷ xs) = ground (arith, covers-nonempty f xs)

covers-subtract_one :
    (f low high ex_low ex_high : ℕ)
    → covers f (subtract_one low high ex_low ex_high)
      ≡ (within f (low, high) && not (within f (ex_low, ex_high)))
unfolding subtract_one
covers-subtract_one f low high ex_low ex_high = ground arith

covers-subtract_all :
    (f : ℕ) (segments : List Range) (ex_low ex_high : ℕ)
    → covers f (subtract_all segments ex_low ex_high)
      ≡ (covers f segments && not (within f (ex_low, ex_high)))
unfolding subtract_all
covers-subtract_all f [] ex_low ex_high = refl
covers-subtract_all f ((low, high) ∷ rest) ex_low ex_high =
    covers-append f (subtract_one low high ex_low ex_high) (subtract_all rest ex_low ex_high)
    ∙ ground (
      arith,
      covers-subtract_one f low high ex_low ex_high,
      covers-subtract_all f rest ex_low ex_high,
    )

-- A frequency lies in the ranges that are left exactly when it lay in the given ranges and does not lie in
-- the removed one.
pub covers-subtract :
    (f : ℕ) (segments : List Range) (ex_low ex_high : ℕ)
    → covers f (subtract_range segments ex_low ex_high)
      ≡ (covers f segments && not (within f (ex_low, ex_high)))
unfolding subtract_range
covers-subtract f segments ex_low ex_high =
    covers-nonempty f (subtract_all segments ex_low ex_high)
    ∙ covers-subtract_all f segments ex_low ex_high
