-- ===== src/Spectrum/Inquiry.antt =====
-- services/spectrum_inquiry_service.py: `process_spectrum_inquiry`. An inquiry writes no row.
use sas_core.Prelude.{
  ℕ, String, true, ◌&&◌, Option, none, some, List, map, contains, if◌then◌else◌, string_eq,
}
use sas_core.Codes.{success, blacklisted, missing_param, invalid_param}
use sas_core.Records.{Cbsd}
use sas_core.Store.{Store, Checks, Range}
use sas_core.Auth.{cbsd_certificate_mismatch, is_cbsd_blacklisted, lock_cbsd_row, admin_flag_set}
use sas_core.Spectrum.{
  RawRange, RawList, Result, ok, err, validate_inquired, Channel, build_available_channels,
}
use sas_core.MeasReport.{MeasReport, meas_without_grant, flag_meas_reg, validate_meas_report}
use sas_core.Rows.{present}

pub record InquiryRequest : Type 0 where
  pub cbsd_id : Option String
  pub meas_report : MeasReport
  pub inquired_spectrum : RawList RawRange

pub record InquiryReply : Type 0 where
  pub response_code : ℕ
  pub cbsd_id : Option String
  pub available_channel : Option (List Channel)

abbrev pub inquiry_refusal : ℕ → Option String → InquiryReply
inquiry_refusal code cid = record { response_code = code; cbsd_id = cid; available_channel = none }

unfoldable pub asked_meas_code : Store → Cbsd → MeasReport → Option ℕ
asked_meas_code db c report =
    if admin_flag_set db flag_meas_reg && contains meas_without_grant c.registration.meas_capability
    then validate_meas_report report true
    else none

unfoldable pub inquire_spectrum :
    Checks → Store → Cbsd → String → Result (List Range) → InquiryReply
inquire_spectrum env db c cid (err code) = inquiry_refusal code (some cid)
inquire_spectrum env db c cid (ok inquired) = record {
  response_code = success;
  cbsd_id = some cid;
  available_channel = some (build_available_channels env db c inquired);
}

unfoldable pub inquire_measured :
    Checks → Store → Cbsd → String → InquiryRequest → Option ℕ → InquiryReply
inquire_measured env db c cid req (some code) = inquiry_refusal code (some cid)
inquire_measured env db c cid req none =
    inquire_spectrum env db c cid (validate_inquired req.inquired_spectrum)

unfoldable pub inquire_known :
    Checks → Store → Option String → String → InquiryRequest → Option Cbsd → InquiryReply
inquire_known env db hash cid req none = inquiry_refusal invalid_param none
inquire_known env db hash cid req (some c) =
    if cbsd_certificate_mismatch c hash
    then inquiry_refusal invalid_param none
    else if is_cbsd_blacklisted db c.fcc_id c.cbsd_serial_number
    then inquiry_refusal blacklisted (some cid)
    else inquire_measured env db c cid req (asked_meas_code db c req.meas_report)

unfoldable pub inquire_id :
    Checks → Store → Option String → InquiryRequest → Option String → InquiryReply
inquire_id env db hash req none = inquiry_refusal missing_param none
inquire_id env db hash req (some cid) =
    inquire_known env db hash cid req (lock_cbsd_row db.cbsds cid)

unfoldable pub process_spectrum_inquiry :
    Checks → Store → Option String → List InquiryRequest → List InquiryReply
process_spectrum_inquiry env db hash reqs =
    map (λ req. inquire_id env db hash req (present req.cbsd_id)) reqs
