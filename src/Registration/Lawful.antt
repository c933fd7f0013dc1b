-- ===== src/Registration/Lawful.antt =====
-- services/registration_service.py: a device that registers has a place on the globe and a lawful power.
use sas_core.Prelude.{ℕ, String, true, false, ◌≡◌, refl, sym, ◌∙◌, some, ◌==◌, string_eq, arith}
use sas_core.Prelude.Int.{ℤ, pos, negsuc, ◌≤ℤ◌}
use sas_core.Number.{Number, finite, nan, infinite, neg_infinite, is_above, is_below}
use sas_core.Store.{Store}
use sas_core.Json.{Fields, get, given, text_of}
use sas_core.Checked.{passed, bind_passed}
use sas_core.Registration.Validate.{
  RegistrationChecks, find_fcc, check_number, is_outside, check_coordinates,
}
use sas_core.Registration.Table.{number_at, fields_of, point, registration_of}
use sas_core.Registration.Handler.{examine}
use sas_core.Registration.Examined.{examine-IsExamined}
use sas_core.Registration.Limits.{
  number_of, number_at-get, given-get, checked_number, PowerIsLawful, checked_power, present_field,
  place_given, fields_of_object, determined_installation, valid_site,
}

-- From one bound to another; NaN, which no comparison rejects, is let through.
pub data Between (lo hi : ℤ) : Number → Type 0 where
  in_bounds : {n : ℤ} → lo ≤ℤ n → n ≤ℤ hi → Between lo hi (finite n)
  not_compared : Between lo hi nan

within_bounds : (lo hi : ℤ) (n : Number) → is_outside lo hi n ≡ false → Between lo hi n
unfolding is_outside is_below is_above
within_bounds lo hi (finite n) h = in_bounds (ground arith) (ground arith)
within_bounds lo hi nan h = not_compared
within_bounds lo hi infinite h = cc
within_bounds lo hi neg_infinite h = cc

bounded_number :
    (key : String) (lo hi : ℤ) (i : Fields)
    → check_number (is_outside lo hi) (get key i) ≡ passed tt
    → given key i ≡ true
    → (n : Number) × (number_at key i ≡ some n) × Between lo hi n
bounded_number key lo hi i h g =
    let (n, found, good) =
      checked_number (is_outside lo hi) (get key i) h (sym (given-get key i) ∙ g) in
    (n, number_at-get key i ∙ found, within_bounds lo hi n good)

place_of :
    (merged i : Fields) (lat lon : Number)
    → fields_of (get "installationParam" merged) ≡ i
    → number_at "latitude" i ≡ some lat
    → number_at "longitude" i ≡ some lon
    → (registration_of merged).location ≡ some (lat, lon)
unfolding registration_of
place_of merged i lat lon e p q = rw (e, p, q) (pointed lat lon)
  where
    pointed : (lat lon : Number) → point (some lat) (some lon) ≡ some (lat, lon)
    pointed lat lon = refl

power_of :
    (merged i : Fields)
    → fields_of (get "installationParam" merged) ≡ i
    → (registration_of merged).eirp_capability ≡ number_of (get "eirpCapability" i)
unfolding registration_of
power_of merged i e = rw e (number_at-get "eirpCapability" i)

-- The place and the power of the registration that a request stores.
abbrev pub IsLawful : Store → Fields → Type 0
IsLawful db merged =
    ((lat : Number) × (lon : Number) × ((registration_of merged).location ≡ some (lat, lon))
      × Between (negsuc 89_999) (pos 90_000) lat
      × Between (negsuc 179_999) (pos 180_000) lon)
    × PowerIsLawful (registration_of merged).eirp_capability
        (find_fcc db.fcc_max_eirps (text_of "fccId" merged)) (text_of "cbsdCategory" merged == "A")

-- A request whose parameters `examine` accepts names a site, which is the location of the stored
-- registration: the latitude is from -90 to 90 degrees and the longitude from -180 to 180, or either is
-- NaN; and the power that it stores, if any, is at most the limit injected for its FCC id, and at most
-- 30 dBm in category A, or it is NaN.
pub examine_limits :
    (env : RegistrationChecks) (db : Store) (now : ℕ) (request merged : Fields)
    → examine env db now request ≡ passed merged
    → IsLawful db merged
unfolding check_coordinates
examine_limits env db now request merged h =
    let v = examine-IsExamined env db now request merged h in
    let i = v.installation in
    let (cap, found, coordinates, power) = valid_site env db request merged i v.valid v.installed in
    let full = present_field merged i (determined_installation merged i v.determined v.installed) in
    let (has_lat, has_lon) = place_given i full in
    let (u, h1, r1) =
      bind_passed (check_number (is_outside (negsuc 89_999) (pos 90_000)) (get "latitude" i)) _
        coordinates in
    let (w, h2, r2) =
      bind_passed (check_number (is_outside (negsuc 179_999) (pos 180_000)) (get "longitude" i)) _
        r1 in
    let (lat, at_lat, lat_in) =
      bounded_number "latitude" (negsuc 89_999) (pos 90_000) i h1 has_lat in
    let (lon, at_lon, lon_in) =
      bounded_number "longitude" (negsuc 179_999) (pos 180_000) i h2 has_lon in
    let same = fields_of_object (get "installationParam" merged) i v.installed in
    (
      (lat, lon, place_of merged i lat lon same at_lat at_lon, lat_in, lon_in),
      rw (power_of merged i same, found)
          (checked_power (get "eirpCapability" i) cap (text_of "cbsdCategory" merged == "A") power),
    )
