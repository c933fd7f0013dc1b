-- ===== src/Number.antt =====
-- Python's numbers as JSON gives them: `json` also reads NaN and the infinities, and no comparison with NaN
-- holds.
use sas_core.Prelude.{Bool, true, false}
use sas_core.Prelude.Int.{ℤ, ltb_ℤ, leb_ℤ}

-- A finite number is held in thousandths.
pub data Number : Type 0 where
  finite : ℤ → Number
  nan : Number
  infinite : Number
  neg_infinite : Number

-- `x > bound`
unfoldable pub is_above : Number → ℤ → Bool
is_above (finite n) bound = ltb_ℤ bound n
is_above nan bound = false
is_above infinite bound = true
is_above neg_infinite bound = false

-- `x < bound`
unfoldable pub is_below : Number → ℤ → Bool
is_below (finite n) bound = ltb_ℤ n bound
is_below nan bound = false
is_below infinite bound = false
is_below neg_infinite bound = true

-- `x >= bound`
unfoldable pub is_at_least : Number → ℤ → Bool
is_at_least (finite n) bound = leb_ℤ bound n
is_at_least nan bound = false
is_at_least infinite bound = true
is_at_least neg_infinite bound = false
