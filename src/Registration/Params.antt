-- ===== src/Registration/Params.antt =====
-- services/registration_service.py: the parameters of a request, merged with those injected for its
-- CBSD and with those that a professional installer signed.
use Prim.Native.Char.{code}
use sas_core.Prelude.{
  ℕ, String, Bool, true, false, nat_beq, ◌&&◌, ◌||◌, not, Option, none, some, List, [], ◌∷◌, any,
  if◌then◌else◌, ◌==◌, string_eq,
}
use sas_core.Json.{
  Json, text, arr, Items, nil, cons, obj, Fields, end, get, put, deep_merge, has, given, drop_nulls,
  text_of, object_or_empty,
}
use sas_core.Checked.{Checked, passed, raised, ◌>>=◌, ◌>>◌, or_raise}
use sas_core.Cpi.{
  CpiTools, str_of, decode_cpi_signed_data, structural_cpi_error, verify_cpi_signature,
}
use sas_core.Store.{Store}

-- ConditionalRegistration: `filter_by(fcc_id=..., cbsd_serial_number=...).first()`
unfoldable pub find_conditional : List (String × String × Fields) → String → String → Fields
find_conditional [] fcc serial = end
find_conditional ((f, s, d) ∷ rest) fcc serial =
    if f == fcc && s == serial then d else find_conditional rest fcc serial

unfoldable pub get_conditionals : Store → String → String → Fields
unfolding find_conditional
get_conditionals db fcc serial = find_conditional db.conditionals fcc serial

-- `if key in signed and not merged.get(key)`
unfoldable pub fill_in : String → Fields → Fields → Fields
fill_in key signed merged = elim (get key signed) [
  | none ↦ merged
  | some v ↦ if has key merged then merged else put key v merged
]

-- The signed installation parameters are preferred. `_deep_merge` reads both as objects, or raises.
unfoldable pub merge_installation : Option Json → Fields → Checked Fields
merge_installation none merged = passed merged
merge_installation (some (obj overlay)) merged = do
  existing ← or_raise (object_or_empty (get "installationParam" merged))
  passed (put "installationParam" (obj (deep_merge existing overlay)) merged)
merge_installation (some _) merged = raised

unfoldable pub merge_registration : Fields → Fields → Option Fields → Checked Fields
merge_registration request conditionals none = passed (deep_merge conditionals (drop_nulls request))
merge_registration request conditionals (some end) =
    passed (deep_merge conditionals (drop_nulls request))
merge_registration request conditionals (some signed) = do
  merged ←
      merge_installation (get "installationParam" signed)
        (deep_merge conditionals (drop_nulls request))
  passed (fill_in "cbsdSerialNumber" signed (fill_in "fccId" signed merged))

unfoldable pub lacks_required_fields : Fields → Bool
lacks_required_fields request =
    not (has "userId" request && has "fccId" request && has "cbsdSerialNumber" request)

-- `filter_by(cpi_id=...).first()`, its public key
unfoldable pub find_cpi_key : List (String × String) → String → Option String
find_cpi_key [] id = none
find_cpi_key ((i, pem) ∷ rest) id = if i == id then some pem else find_cpi_key rest id

-- `d or {}`
unfoldable pub or_end : Option Fields → Fields
or_end none = end
or_end (some d) = d

-- The key of the installer whom the payload names; the payload is not trusted yet.
unfoldable pub peek_key : CpiTools → Store → Fields → Checked (Option String)
unfolding find_cpi_key
peek_key tools db sig = do
  let peek = or_end (decode_cpi_signed_data tools sig)
  prof ← or_raise (object_or_empty (get "professionalInstallerData" peek))
  passed (
      if has "cpiId" prof
      then find_cpi_key db.cpi_users (str_of tools (get "cpiId" prof))
      else none)

unfoldable pub verify_signed : CpiTools → Store → Fields → ℕ → Fields → Checked (Option Fields)
unfolding peek_key
verify_signed tools db request now end = passed none
verify_signed tools db request now sig = do
  structural_cpi_error tools sig
  pem ← peek_key tools db sig
  payload ←
      verify_cpi_signature tools sig pem (text_of "fccId" request)
        (text_of "cbsdSerialNumber" request) now
  passed (some payload)

-- The payload that the installer signed, if the request has a signature.
unfoldable pub verify_request_cpi : CpiTools → Store → Fields → ℕ → Checked (Option Fields)
unfolding verify_signed
verify_request_cpi tools db request now = do
  sig ← or_raise (object_or_empty (get "cpiSignatureData" request))
  verify_signed tools db request now sig

-- Absent or null.
unfoldable pub field_missing : Fields → String → Bool
field_missing d name = not (given name d)

unfoldable pub starts_with : String → String → Bool
starts_with String.[] s = true
starts_with (String.◌∷◌ c p) String.[] = false
starts_with (String.◌∷◌ c p) (String.◌∷◌ d s) = nat_beq (code c) (code d) && starts_with p s

-- `name in s` on texts
unfoldable pub has_text : String → String → Bool
unfolding starts_with
has_text name String.[] = starts_with name String.[]
has_text name (String.◌∷◌ c s) = starts_with name (String.◌∷◌ c s) || has_text name s

-- `name in xs` on a list
unfoldable pub has_item : String → Items → Bool
has_item name nil = false
has_item name (cons (text s) rest) = s == name || has_item name rest
has_item name (cons x rest) = has_item name rest

-- An air interface that is there: a text or a list where `in` finds the name has no `get`, and raises
-- like a number; where it does not, the field is missing.
unfoldable pub air_incomplete : Option Json → Checked Bool
air_incomplete (some (obj air)) = passed (field_missing air "radioTechnology")
air_incomplete (some (text s)) = if has_text "radioTechnology" s then raised else passed true
air_incomplete (some (arr xs)) = if has_item "radioTechnology" xs then raised else passed true
air_incomplete _ = raised

unfoldable pub category_fields : String → List String
category_fields category =
    if category == "A"
    then "indoorDeployment" ∷ []
    else if category == "B"
    then "antennaAzimuth" ∷ "antennaGain" ∷ "antennaBeamwidth" ∷ []
    else []

abbrev pub required_common : List String
required_common = "latitude" ∷ "longitude" ∷ "height" ∷ "heightType" ∷ []

unfoldable pub installation_incomplete : Fields → Fields → Bool
unfolding field_missing category_fields
installation_incomplete merged end = true
installation_incomplete merged installation =
    any (field_missing installation) required_common
    || any (field_missing installation) (category_fields (text_of "cbsdCategory" merged))

unfoldable pub has_pending_params : Fields → Checked Bool
unfolding air_incomplete installation_incomplete
has_pending_params merged = do
  installation ← or_raise (object_or_empty (get "installationParam" merged))
  air ←
      if has "cbsdCategory" merged && has "airInterface" merged
      then air_incomplete (get "airInterface" merged)
      else passed true
  passed (air || installation_incomplete merged installation)
