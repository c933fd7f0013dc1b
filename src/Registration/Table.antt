-- ===== src/Registration/Table.antt =====
-- services/registration_service.py: the row of a registration, and the grants that end with it.
use sas_core.Prelude.{
  ℕ, String, Bool, true, false, ◌&&◌, not, Option, none, some, List, [], ◌∷◌, ◌++◌, map, nat_beq,
  if◌then◌else◌, ◌==◌, string_eq,
}
use sas_core.Records.{Cbsd, Grant, Registration}
use sas_core.Store.{Store}
use sas_core.Number.{Number}
use sas_core.Json.{
  Json, text, arr, obj, Items, nil, cons, Fields, end, get, number, maybe_text, text_of,
}
use sas_core.Lifecycle.{
  registered, terminate, cbsd_state_value, apply_cbsd_state, apply_grant_event,
}

unfoldable pub texts : Items → List String
texts nil = []
texts (cons (text s) xs) = s ∷ texts xs
texts (cons _ xs) = texts xs

unfoldable pub list_of : Option Json → List String
unfolding texts
list_of (some (arr xs)) = texts xs
list_of _ = []

unfoldable pub fields_of : Option Json → Fields
fields_of (some (obj d)) = d
fields_of _ = end

unfoldable pub number_at : String → Fields → Option Number
number_at key d = elim (get key d) [ none ↦ none | some v ↦ number v ]

unfoldable pub point : Option Number → Option Number → Option (Number × Number)
point (some lat) (some lon) = some (lat, lon)
point _ _ = none

unfoldable pub is_empty : Fields → Bool
is_empty end = true
is_empty _ = false

-- What the services read of `registration_json`.
unfoldable pub registration_of : Fields → Registration
unfolding list_of fields_of number_at point is_empty
registration_of merged =
    let installation = fields_of (get "installationParam" merged) in
    record {
      cbsd_category = maybe_text "cbsdCategory" merged;
      meas_capability = list_of (get "measCapability" merged);
      has_installation = not (is_empty installation);
      location = point (number_at "latitude" installation) (number_at "longitude" installation);
      eirp_capability = number_at "eirpCapability" installation;
    }

-- A hash that is given replaces the old one.
unfoldable pub renewed_hash : Option String → Option String → Option String
renewed_hash old none = old
renewed_hash old (some h) = some h

unfoldable pub update_cbsd : Cbsd → Option String → Fields → Fields → Cbsd
unfolding renewed_hash cbsd_state_value
update_cbsd c hash request merged =
    apply_cbsd_state
      (record c {
        user_id = text_of "userId" request;
        cbsd_category = maybe_text "cbsdCategory" merged;
        registration = registration_of merged;
        certificate_hash = renewed_hash c.certificate_hash hash;
      })
      registered

unfoldable pub new_cbsd : ℕ → String → Option String → Fields → Fields → Cbsd
new_cbsd pk cid hash request merged = record {
  pk = pk;
  cbsd_id = cid;
  fcc_id = text_of "fccId" request;
  user_id = text_of "userId" request;
  cbsd_serial_number = text_of "cbsdSerialNumber" request;
  cbsd_category = maybe_text "cbsdCategory" merged;
  certificate_hash = hash;
  lifecycle_state = cbsd_state_value registered;
  registration = registration_of merged;
}

-- The changed row takes the place of the row with its primary key.
unfoldable pub replace_cbsd : List Cbsd → Cbsd → List Cbsd
replace_cbsd [] c = []
replace_cbsd (x ∷ xs) c =
    let rest = replace_cbsd xs c in if nat_beq x.pk c.pk then c ∷ rest else x ∷ rest

-- A grant of the CBSD that has not ended is terminated; the outcome is not looked at.
unfoldable pub end_grant : String → ℕ → Grant → Grant
end_grant cid now g =
    if g.cbsd_id == cid && not g.terminated
    then (apply_grant_event g terminate (("cbsdId", cid) ∷ ("grantId", g.grant_id) ∷ []) now).1
    else g

unfoldable pub end_grants : Store → String → ℕ → Store
end_grants db cid now = record db { grants = map (end_grant cid now) db.grants }

unfoldable pub save_cbsd : Store → Cbsd → Store
save_cbsd db c = record db { cbsds = replace_cbsd db.cbsds c }

unfoldable pub insert_cbsd : Store → Cbsd → Store
insert_cbsd db c = record db { cbsds = db.cbsds ++ (c ∷ []) }
