-- ===== src/Registration/Validate.antt =====
-- services/registration_service.py: the values of the merged parameters, checked against the limits of
-- the device and of Part 96.
use Prim.Native.Char.{code}
use sas_core.Prelude.{
  ℕ, suc, String, Bool, true, false, ◌&&◌, ◌||◌, not, Option, none, some, List, [], ◌∷◌, ltb, leb,
  any, contains, nat_beq, if◌then◌else◌, ◌==◌, string_eq,
}
use sas_core.Prelude.Int.{ℤ, pos, negsuc}
use sas_core.Number.{Number, is_above, is_below, is_at_least}
use sas_core.Codes.{invalid_param}
use sas_core.Json.{
  Json, null, bool, text, arr, obj, Items, nil, cons, Fields, get, has, given, number, text_of,
  object_or_empty,
}
use sas_core.Checked.{Checked, passed, refused, raised, ◌>>=◌, ◌>>◌, refuse_when, or_raise}
use sas_core.Cpi.{CpiTools, or_invalid}
use sas_core.Records.{Cbsd}
use sas_core.Store.{Store}

-- What the procedure asks of code that is not modelled: the library calls of the signature check, the
-- height above average terrain (services/terrain/haat.py), and services/quiet_zone_service.py.
pub record RegistrationChecks : Type 0 where
  pub tools : CpiTools
  pub haat_exceeds_limit : Fields → Bool
  pub blocked_by_quiet_zone : Store → Fields → Fields → Bool
  -- the primary key that the database gives a new row
  pub next_pk : List Cbsd → ℕ

unfoldable pub text_length : String → ℕ
text_length String.[] = 0
text_length (String.◌∷◌ c s) = suc (text_length s)

-- [A-Za-z0-9_:-]
unfoldable pub is_user_char : ℕ → Bool
is_user_char c =
    leb b'a' c && leb c b'z'
    || leb b'A' c && leb c b'Z'
    || leb b'0' c && leb c b'9'
    || nat_beq c b'_'
    || nat_beq c b':'
    || nat_beq c b'-'

-- The rest of the text after its first character: `$` also stands before a last line feed.
unfoldable pub user_chars : String → Bool
user_chars String.[] = true
user_chars (String.◌∷◌ c String.[]) = is_user_char (code c) || nat_beq (code c) 10
user_chars (String.◌∷◌ c (String.◌∷◌ d s)) = is_user_char (code c) && user_chars (String.◌∷◌ d s)

-- VALID_USER_ID.match
unfoldable pub valid_user_id : String → Bool
valid_user_id String.[] = false
valid_user_id (String.◌∷◌ c s) = is_user_char (code c) && user_chars s

unfoldable pub find_fcc : List (String × ℤ) → String → Option ℤ
find_fcc [] fcc = none
find_fcc ((id, cap) ∷ rest) fcc = if id == fcc then some cap else find_fcc rest fcc

abbrev pub valid_meas : List String
valid_meas = "RECEIVED_POWER_WITHOUT_GRANT" ∷ "RECEIVED_POWER_WITH_GRANT" ∷ []

-- `item not in VALID_MEAS`; a list or an object has no hash, and the test raises.
unfoldable pub check_meas_item : Json → Checked (Unit {0})
check_meas_item (text s) = refuse_when (not (contains s valid_meas)) invalid_param
check_meas_item (arr xs) = raised
check_meas_item (obj d) = raised
check_meas_item _ = refused invalid_param

unfoldable pub check_meas_items : Items → Checked (Unit {0})
check_meas_items nil = passed tt
check_meas_items (cons x xs) = check_meas_item x >> check_meas_items xs

unfoldable pub check_meas : Option Json → Checked (Unit {0})
check_meas none = passed tt
check_meas (some null) = passed tt
check_meas (some (arr xs)) = check_meas_items xs
check_meas (some _) = refused invalid_param

-- A value that is given has to be a number that the test does not reject.
unfoldable pub check_number : (Number → Bool) → Option Json → Checked (Unit {0})
check_number bad none = passed tt
check_number bad (some null) = passed tt
check_number bad (some v) = elim (number v) [
  | none ↦ refused invalid_param
  | some n ↦ refuse_when (bad n) invalid_param
]

-- `x < lo or x > hi`
unfoldable pub is_outside : ℤ → ℤ → Number → Bool
unfolding is_below is_above
is_outside lo hi n = is_below n lo || is_above n hi

-- `x < 0 or x >= 360`
unfoldable pub is_no_azimuth : Number → Bool
unfolding is_below is_at_least
is_no_azimuth az = is_below az (pos 0) || is_at_least az (pos 360_000)

unfoldable pub is_height_type : Option Json → Bool
is_height_type (some (text s)) = s == "AGL" || s == "AMSL"
is_height_type _ = false

unfoldable pub check_coordinates : Fields → Checked (Unit {0})
unfolding check_number is_height_type
check_coordinates installation = do
  check_number (is_outside (negsuc 89_999) (pos 90_000)) (get "latitude" installation)
  check_number (is_outside (negsuc 179_999) (pos 180_000)) (get "longitude" installation)
  check_number is_no_azimuth (get "antennaAzimuth" installation)
  refuse_when
      (given "heightType" installation && not (is_height_type (get "heightType" installation)))
      invalid_param

-- The power limit of the FCC id, and 30 dBm in category A.
unfoldable pub check_eirp : Option Json → ℤ → Bool → Checked (Unit {0})
check_eirp none cap is_a = passed tt
check_eirp (some null) cap is_a = passed tt
check_eirp (some v) cap is_a = do
  eirp ← or_raise (number v)
  refuse_when (is_above eirp cap) invalid_param
  refuse_when (is_a && is_above eirp (pos 30_000)) invalid_param

unfoldable pub is_number : Option Json → Bool
is_number o = elim o [ none ↦ false | some v ↦ elim (number v) [ none ↦ false | some n ↦ true ] ]

-- `isinstance(v, (int, float)) and v > 6`
unfoldable pub above_six : Option Json → Bool
above_six o = elim o [
  | none ↦ false
  | some v ↦ elim (number v) [ none ↦ false | some n ↦ is_above n (pos 6_000) ]
]

unfoldable pub is_bool : Bool → Option Json → Bool
is_bool true (some (bool b)) = b
is_bool false (some (bool b)) = not b
is_bool _ _ = false

-- A device of category A outdoors stands at most 6 m high, above the ground and above the terrain.
unfoldable pub check_outdoor : RegistrationChecks → Fields → Checked (Unit {0})
unfolding is_number above_six is_height_type
check_outdoor env installation = do
  refuse_when (text_of "heightType" installation == "AGL" && above_six (get "height" installation))
      invalid_param
  refuse_when
      (is_number (get "latitude" installation)
        && is_number (get "longitude" installation)
        && is_number (get "height" installation)
        && is_height_type (get "heightType" installation)
        && env.haat_exceeds_limit installation)
      invalid_param

unfoldable pub check_site : RegistrationChecks → Fields → String → Checked (Unit {0})
unfolding check_outdoor is_bool
check_site env installation category =
    if category == "A" && is_bool false (get "indoorDeployment" installation)
    then check_outdoor env installation
    else refuse_when (category == "B" && is_bool true (get "indoorDeployment" installation))
        invalid_param

-- Beside a signature no installation parameter stands in clear text; in category B none at all.
unfoldable pub clear_installation : Fields → String → Bool
clear_installation request category =
    given "installationParam" request && (has "cpiSignatureData" request || category == "B")

unfoldable pub validate_params : RegistrationChecks → Store → Fields → Fields → Checked (Unit {0})
unfolding text_length valid_user_id find_fcc
validate_params env db request merged = do
  refuse_when (ltb 64 (text_length (text_of "cbsdSerialNumber" merged))) invalid_param
  refuse_when (ltb 20 (text_length (text_of "fccId" merged))) invalid_param
  refuse_when (not (valid_user_id (text_of "userId" merged))) invalid_param
  cap ← or_invalid (find_fcc db.fcc_max_eirps (text_of "fccId" merged))
  refuse_when (not (any (λ u. u == text_of "userId" merged) db.user_ids)) invalid_param
  check_meas (get "measCapability" merged)
  installation ← or_raise (object_or_empty (get "installationParam" merged))
  check_coordinates installation
  check_eirp (get "eirpCapability" installation) cap (text_of "cbsdCategory" merged == "A")
  check_site env installation (text_of "cbsdCategory" merged)
  refuse_when (clear_installation request (text_of "cbsdCategory" merged)) invalid_param
