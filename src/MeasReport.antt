-- ===== src/MeasReport.antt =====
-- services/meas_report.py: measurement reports, as the procedures ask for and check them.
pub mod Exact
pub mod Flags
use sas_core.Prelude.{
  ℕ, String, Bool, true, false, ◌&&◌, ◌||◌, not, Option, none, some, List, [], ◌∷◌, length, ltb,
  leb, contains, if◌then◌else◌, string_eq,
}
use sas_core.Prelude.Int.{ℤ, pos, ltb_ℤ, leb_ℤ}
use sas_core.Codes.{missing_param, invalid_param}
use sas_core.Spectrum.{Field, absent, null, malformed, int, cbrs_low_hz, cbrs_high_hz}

abbrev pub meas_without_grant : String
meas_without_grant = "RECEIVED_POWER_WITHOUT_GRANT"

abbrev pub meas_with_grant : String
meas_with_grant = "RECEIVED_POWER_WITH_GRANT"

abbrev pub flag_meas_reg : String
flag_meas_reg = "meas_report_registration"

abbrev pub flag_meas_hbt : String
flag_meas_hbt = "meas_report_heartbeat"

abbrev pub min_without_grant_reports : ℕ
min_without_grant_reports = 15

abbrev pub expected_bandwidth_hz : ℕ
expected_bandwidth_hz = 10_000_000

-- An entry of `rcvdPowerMeasReports`.
pub data MeasItem : Type 0 where
  not_an_item : MeasItem
  item : Field → Field → Field → MeasItem

-- The value of `measReport`: None, no dictionary, without the key, no list under it, or the list.
pub data MeasReport : Type 0 where
  no_report not_a_report no_reports_key reports_not_a_list : MeasReport
  reports : List MeasItem → MeasReport

unfoldable pub is_absent : Field → Bool
is_absent absent = true
is_absent _ = false

-- `int(...)` of both, then the bandwidth, then the band.
unfoldable pub check_values : Field → Field → Option ℕ
check_values (int freq) (int bw) =
    if not (leb_ℤ bw (pos expected_bandwidth_hz) && leb_ℤ (pos expected_bandwidth_hz) bw)
    then some invalid_param
    else if ltb_ℤ freq (pos cbrs_low_hz) || leb_ℤ (pos cbrs_high_hz) freq
    then some invalid_param
    else none
check_values _ _ = some invalid_param

unfoldable pub check_item : MeasItem → Option ℕ
check_item not_an_item = some invalid_param
check_item (item freq bw power) =
    if is_absent freq || is_absent bw || is_absent power
    then some missing_param
    else check_values freq bw

-- The first error among the entries.
unfoldable pub check_items : List MeasItem → Option ℕ
check_items [] = none
check_items (m ∷ rest) =
    let later = check_items rest in elim (check_item m) [ some code ↦ some code | none ↦ later ]

-- The response code of a bad report; `none` if it is good.
unfoldable pub validate_meas_report : MeasReport → Bool → Option ℕ
validate_meas_report no_report full = some missing_param
validate_meas_report not_a_report full = some invalid_param
validate_meas_report no_reports_key full = some missing_param
validate_meas_report reports_not_a_list full = some missing_param
validate_meas_report (reports []) full = some missing_param
validate_meas_report (reports (m ∷ rest)) full =
    if full && ltb (length (m ∷ rest)) min_without_grant_reports
    then some missing_param
    else check_items (m ∷ rest)
