-- ===== src/Heartbeat/Refusals.antt =====
-- services/heartbeat_service.py: no refusal answers the code of success.
use sas_core.Prelude.{ℕ, String, Bool, false, ◌≡◌, ◌≢◌, some, List, [], ◌∷◌, arith}
use sas_core.Codes.{success}
use sas_core.Records.{Grant}
use sas_core.Lifecycle.{GrantState, gate_state}
use sas_core.MeasReport.{
  MeasReport, reports, no_report, not_a_report, no_reports_key, reports_not_a_list, MeasItem,
  not_an_item, item, validate_meas_report, check_items, check_item, check_values,
}
use sas_core.Spectrum.{Field}
use sas_core.Heartbeat.Reply.{gate_reply}

pub gate_refused :
    (s : GrantState) (op : String)
    → (gate_state s op).is_ok ≡ false
    → (gate_state s op).response_code ≢ success
unfolding gate_state
gate_refused s op h = ground arith

pub gate_denied :
    (g : Grant) (cid gid : String) (now code : ℕ)
    → code ≢ success
    → (gate_reply g cid gid now code).response_code ≢ success
unfolding gate_reply
gate_denied g cid gid now code h = ground arith

values_code : (f b : Field) (code : ℕ) → check_values f b ≡ some code → code ≢ success
unfolding check_values
values_code f b code h = ground arith

item_code : (m : MeasItem) (code : ℕ) → check_item m ≡ some code → code ≢ success
unfolding check_item
item_code not_an_item code h = ground arith
item_code (item f b p) code h = let bad = values_code f b code in ground arith

items_code : (ms : List MeasItem) (code : ℕ) → check_items ms ≡ some code → code ≢ success
unfolding check_items
items_code [] code h = ground arith
items_code (m ∷ ms) code h =
    let first = item_code m code in let later = items_code ms code in ground arith

-- A bad report is never answered with success.
pub report_code :
    (r : MeasReport) (full : Bool) (code : ℕ)
    → validate_meas_report r full ≡ some code
    → code ≢ success
unfolding validate_meas_report
report_code no_report full code h = ground arith
report_code not_a_report full code h = ground arith
report_code no_reports_key full code h = ground arith
report_code reports_not_a_list full code h = ground arith
report_code (reports []) full code h = ground arith
report_code (reports (m ∷ ms)) full code h = let bad = items_code (m ∷ ms) code in ground arith
