-- ===== src/Grants/Proposal.antt =====
-- services/grant_service.py: the checks of a grant request before its locks.
use sas_core.Prelude.{
  ℕ, String, Bool, true, false, ◌&&◌, ◌||◌, Option, none, some, contains, if◌then◌else◌, ◌==◌,
  string_eq,
}
use sas_core.Prelude.Int.{ℤ}
use sas_core.Number.{is_below}
use sas_core.Codes.{blacklisted, missing_param, invalid_param, interference}
use sas_core.Records.{Cbsd}
use sas_core.Store.{Store, Checks, Range, Location}
use sas_core.Auth.{is_cbsd_blacklisted, admin_flag_set}
use sas_core.Spectrum.{
  Field, absent, null, malformed, int, RawRange, not_a_dict, range, Result, ok, err, ◌>>=◌,
  check_fields,
}
use sas_core.MeasReport.{MeasReport, meas_without_grant, flag_meas_reg, validate_meas_report}
use sas_core.Grants.Channel.{
  max_allowed_eirp_mhz, fcc_max_eirp, ppa_pal_context, ChannelChoice, resolve_channel,
}

-- `operationParam`; a power that `float()` reads is `int` of its thousandths of a decibel.
pub record OperationParam : Type 0 where
  pub max_eirp : Field
  pub frequency_range : RawRange

-- A request, with the identifier and the primary key that its row gets if it is granted.
pub record GrantRequest : Type 0 where
  pub cbsd_id : Option String
  pub meas_report : MeasReport
  pub operation_param : Option OperationParam
  pub new_grant_id : String
  pub new_pk : ℕ

pub record GrantReply : Type 0 where
  pub response_code : ℕ
  pub cbsd_id : Option String
  pub grant_id : Option String
  pub grant_expire_time : Option ℕ
  pub transmit_expire_time : Option ℕ
  pub heartbeat_interval : Option ℕ
  pub channel_type : Option String

abbrev pub refusal : ℕ → Option String → GrantReply
refusal code cid = record {
  response_code = code;
  cbsd_id = cid;
  grant_id = none;
  grant_expire_time = none;
  transmit_expire_time = none;
  heartbeat_interval = none;
  channel_type = none;
}

unfoldable pub parse_freq : RawRange → Result Range
parse_freq not_a_dict = err missing_param
parse_freq (range low high) = check_fields low high

abbrev pub refuse_if : Bool → ℕ → Result {0} Unit
refuse_if b code = if b then err code else ok tt

unfoldable pub meas_code : Store → Cbsd → MeasReport → Option ℕ
meas_code db c report =
    if admin_flag_set db flag_meas_reg && contains meas_without_grant c.registration.meas_capability
    then validate_meas_report report true
    else none

unfoldable pub meas_check : Option ℕ → Result {0} Unit
meas_check none = ok tt
meas_check (some code) = err code

-- `operationParam` with a `maxEirp`
unfoldable pub required_param : Option OperationParam → Result OperationParam
required_param none = err missing_param
required_param (some op) = elim op.max_eirp [
  | absent ↦ err missing_param
  | null ↦ err missing_param
  | malformed ↦ ok op
  | int e ↦ ok op
]

unfoldable pub parse_eirp : Field → Result ℤ
parse_eirp (int e) = ok e
parse_eirp _ = err invalid_param

-- What cannot be determined denies.
unfoldable pub or_denied : Option Bool → Bool
or_denied none = true
or_denied (some b) = b

-- The checks that need a location.
unfoldable pub blocked_at : Checks → Store → Cbsd → Range → ℤ → Option Location → Bool
blocked_at env db c r eirp none = false
blocked_at env db c r eirp (some loc) =
    or_denied (env.hits_exclusion_zone db loc r)
    || or_denied (env.blocked_by_gwpz db loc r)
    || env.blocked_by_quiet_zone db loc
        (elim c.cbsd_category [
          | none ↦ c.registration.cbsd_category
          | some s ↦ if s == "" then c.registration.cbsd_category else some s
        ])
        r
    || env.blocked_by_fss_gwbl db loc r
    || env.violates_dpa db c r eirp

unfoldable pub crosses_border : Checks → Cbsd → Range → ℤ → Bool
crosses_border env c r eirp = c.registration.has_installation && env.violates_border_pfd c eirp r

pub record Proposal : Type 0 where
  pub frequency : Range
  pub max_eirp : ℤ
  pub channel : ChannelChoice

-- All checks before the locks are taken; an error is the response code.
unfoldable pub propose : Checks → Store → Cbsd → GrantRequest → Result Proposal
propose env db c req = do
  allowed ← refuse_if (is_cbsd_blacklisted db c.fcc_id c.cbsd_serial_number) blacklisted
  measured ← meas_check (meas_code db c req.meas_report)
  op ← required_param req.operation_param
  freq ← parse_freq op.frequency_range
  eirp ← parse_eirp op.max_eirp
  powered ←
      refuse_if (is_below (max_allowed_eirp_mhz c (fcc_max_eirp db.fcc_max_eirps c.fcc_id)) eirp)
        invalid_param
  choice ← resolve_channel (ppa_pal_context env db c db.zones) freq c.user_id
  clear ← refuse_if (blocked_at env db c freq eirp c.registration.location) interference
  inland ← refuse_if (crosses_border env c freq eirp) interference
  ok (record { frequency = freq; max_eirp = eirp; channel = choice })
