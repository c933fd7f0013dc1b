-- ===== src/Renewal.antt =====
-- services/grant_renewal.py: the new expiration of a grant, and what renewal writes to its row.
pub mod Window
pub mod Applied
use sas_core.Prelude.{
  ℕ, String, Bool, true, false, ◌&&◌, ◌||◌, not, Option, none, some, List, [], ◌∷◌, leb, min,
  nat_beq, if◌then◌else◌, ◌==◌, string_eq,
}
use sas_core.Codes.{success, invalid_param}
use sas_core.Clock.{trunc_sec, add_seconds}
use sas_core.Records.{Grant, AuthContext, Stamp}
use sas_core.Store.{Store, PalRow}
use sas_core.Auth.{is_blank, upper, same_codes}
use sas_core.Lifecycle.{is_terminal, resolve_grant_state}

-- services/grant_service.py: DEFAULT_GRANT_DURATION_SEC
abbrev pub default_grant_duration_sec : ℕ
default_grant_duration_sec = 900

pub data RenewalDetail : Type 0 where
  terminal_or_expired grant_already_expired pal_license_invalid : RenewalDetail
  pal_license_missing pal_license_expired protections_restamped : RenewalDetail

pub record RenewalResult : Type 0 where
  pub is_ok : Bool
  pub response_code : ℕ
  pub new_expire : Option ℕ
  pub detail : Option RenewalDetail

abbrev pub refuse : RenewalDetail → RenewalResult
refuse d = record {
  is_ok = false;
  response_code = invalid_param;
  new_expire = none;
  detail = some d;
}

abbrev pub renew_until : ℕ → RenewalResult
renew_until t = record { is_ok = true; response_code = success; new_expire = some t; detail = none }

-- `s.upper() == t`, where `t` is in capitals
unfoldable pub upper_is : String → String → Bool
unfolding upper same_codes
upper_is s t = same_codes (upper s) (upper t)

-- Python's `a or b` on texts
unfoldable pub or_text : Option String → String → String
or_text none d = d
or_text (some s) d = if s == "" then d else s

-- `auth_context`, or one made of the column
unfoldable pub load_auth_context : Grant → AuthContext
unfolding or_text
load_auth_context g = elim g.auth_context [
  | some ctx ↦ ctx
  | none ↦ record {
    channel_type = some (or_text (some g.channel_type) "GAA");
    pal_id = none;
    pal_license_expiration = none;
  }
]

unfoldable pub find_pal_row : List PalRow → String → Option PalRow
find_pal_row [] id = none
find_pal_row (r ∷ rest) id = if r.pal_id == id then some r else find_pal_row rest id

-- The row of a context's PAL, if it names one.
unfoldable pub linked_row : Store → AuthContext → Option PalRow
linked_row db ctx = elim ctx.pal_id [
  | none ↦ none
  | some id ↦ if id == "" then none else find_pal_row db.pal_rows id
]

unfoldable pub is_valid_license : PalRow → Bool
is_valid_license r = upper_is (or_text (some r.license_status) "VALID") "VALID"

-- `none` without a linked row; else whether `licenseStatus` is VALID
unfoldable pub pal_license_valid : Store → Grant → Option Bool
pal_license_valid db g = elim (linked_row db (load_auth_context g)) [
  | none ↦ none
  | some r ↦ some (is_valid_license r)
]

-- The column, else the JSON record, else what was stored with the grant.
unfoldable pub row_cap : PalRow → Option ℕ → Option ℕ
row_cap r stored = elim r.license_expiration [
  | some t ↦ some t
  | none ↦ elim r.record_expiration [ some t ↦ some t | none ↦ stored ]
]

unfoldable pub resolve_pal_license_cap : Store → Grant → Option ℕ
unfolding row_cap
resolve_pal_license_cap db g =
    let ctx = load_auth_context g in
    elim (linked_row db ctx) [
      | none ↦ ctx.pal_license_expiration
      | some r ↦ if is_valid_license r then row_cap r ctx.pal_license_expiration else none
    ]

unfoldable pub renew_pal : ℕ → Option Bool → Option ℕ → RenewalResult
renew_pal wall (some false) cap = refuse pal_license_invalid
renew_pal wall status none = refuse pal_license_missing
renew_pal wall status (some cap) =
    if leb (trunc_sec cap) wall
    then refuse pal_license_expired
    else renew_until (min (add_seconds wall default_grant_duration_sec) (trunc_sec cap))

-- Whether the grant is a PAL grant: its context's channel, else its column.
unfoldable pub is_pal_channel : Grant → Bool
is_pal_channel g =
    upper_is (or_text (load_auth_context g).channel_type (or_text (some g.channel_type) "GAA"))
      "PAL"

unfoldable pub compute_renewal : Store → Grant → ℕ → RenewalResult
compute_renewal db g now =
    let wall = trunc_sec now in
    if is_terminal (resolve_grant_state g wall) || g.terminated
    then refuse terminal_or_expired
    else if leb (trunc_sec g.grant_expire_time) wall
    then refuse grant_already_expired
    else if is_pal_channel g
    then renew_pal wall (pal_license_valid db g) (resolve_pal_license_cap db g)
    else renew_until (add_seconds wall default_grant_duration_sec)

unfoldable pub protection_stamp_drifted : Store → Grant → Bool
protection_stamp_drifted db g =
    not (nat_beq g.stamp.fss db.sync.fss)
    || not (nat_beq g.stamp.gwbl db.sync.gwbl)
    || not (nat_beq g.stamp.exz db.sync.exz)
    || not (nat_beq g.stamp.dpa db.sync.dpa)

unfoldable pub refresh_protection_stamp : Store → Grant → Grant
refresh_protection_stamp db g = record g { stamp = db.sync }

unfoldable pub write_cap : Grant → AuthContext → Option ℕ → Grant
write_cap g ctx none = g
write_cap g ctx (some t) = record g {
  auth_context = some (record ctx { pal_license_expiration = some (trunc_sec t) });
}

unfoldable pub sync_context : Store → Grant → Option AuthContext → Grant
unfolding write_cap
sync_context db g none = g
sync_context db g (some ctx) =
    if upper_is (or_text ctx.channel_type "") "PAL"
    then write_cap g ctx (resolve_pal_license_cap db g)
    else g

-- A PAL context keeps the expiration that is in force.
unfoldable pub sync_auth_context : Store → Grant → Grant
unfolding sync_context
sync_auth_context db g = sync_context db g g.auth_context

unfoldable pub extend_grant : Store → Grant → ℕ → Grant
unfolding refresh_protection_stamp
extend_grant db g t =
    sync_auth_context db (refresh_protection_stamp db (record g { grant_expire_time = t }))

unfoldable pub note_drift : Bool → RenewalResult → RenewalResult
note_drift drifted r = if drifted then record r { detail = some protections_restamped } else r

unfoldable pub apply_expiration : Store → Grant → RenewalResult → Option ℕ → RenewalResult × Grant
unfolding extend_grant note_drift
apply_expiration db g r none = (r, g)
apply_expiration db g r (some t) =
    (note_drift (protection_stamp_drifted db g) r, extend_grant db g t)

unfoldable pub apply_result : Store → Grant → RenewalResult → RenewalResult × Grant
apply_result db g r = if r.is_ok then apply_expiration db g r r.new_expire else (r, g)

unfoldable pub apply_renewal : Store → Grant → ℕ → RenewalResult × Grant
apply_renewal db g now = apply_result db g (compute_renewal db g now)
