-- ===== src/MeasReport/Exact.antt =====
-- services/meas_report.py: the reports that `validate_meas_report` accepts.
use sas_core.Prelude.{
  ℕ, ◌≤◌, ◌<◌, Bool, true, false, ◌≡◌, ◌↔◌, refl, none, List, [], ◌∷◌, length, All, arith,
}
use sas_core.Prelude.Int.{pos}
use sas_core.Spectrum.{int, cbrs_low_hz, cbrs_high_hz}
use sas_core.MeasReport.{
  MeasItem, not_an_item, item, MeasReport, reports, is_absent, check_values, check_item,
  check_items, validate_meas_report, min_without_grant_reports, expected_bandwidth_hz,
}

-- A frequency in the band, the bandwidth of a channel, and some power.
abbrev pub IsGood : MeasItem → Type 0
IsGood (item (int (pos freq)) (int (pos bw)) power) =
    (cbrs_low_hz ≤ freq)
    × (freq < cbrs_high_hz)
    × (bw ≡ expected_bandwidth_hz)
    × (is_absent power ≡ false)
IsGood _ = ⊥

-- How many entries a report needs.
abbrev pub required_reports : Bool → ℕ
required_reports true = min_without_grant_reports
required_reports false = 1

-- A list of good entries, of which a full report has at least fifteen and any report one.
abbrev pub IsAccepted : Bool → MeasReport → Type 0
IsAccepted full (reports ms) = (required_reports full ≤ length ms) × All IsGood ms
IsAccepted full _ = ⊥

IsGood-item : (m : MeasItem) → check_item m ≡ none → IsGood m
unfolding check_item check_values is_absent
IsGood-item not_an_item h = cc
IsGood-item (item (int (pos f)) (int (pos b)) p) h = ground arith
IsGood-item (item f b p) h = ground arith

item_good : (m : MeasItem) → IsGood m → check_item m ≡ none
unfolding check_item check_values is_absent
item_good (item (int (pos f)) (int (pos b)) p) h = ground arith
item_good (item (int (pos f)) b p) h = ground arith
item_good m h = ground arith

IsGood-items : (ms : List MeasItem) → check_items ms ≡ none → All IsGood ms
unfolding check_items
IsGood-items [] h = tt
IsGood-items (m ∷ rest) h = (IsGood-item m (ground arith), IsGood-items rest (ground arith))

items_good : (ms : List MeasItem) → All IsGood ms → check_items ms ≡ none
unfolding check_items
items_good [] h = refl
items_good (m ∷ rest) h = ground (arith, item_good m h.0, items_good rest h.1)

nonempty-IsAccepted :
    (m : MeasItem) (ms : List MeasItem) (full : Bool)
    → (validate_meas_report (reports (m ∷ ms)) full ≡ none) ↔ IsAccepted full (reports (m ∷ ms))
unfolding validate_meas_report
nonempty-IsAccepted m ms true = (
  λ e. (ground arith, IsGood-items (m ∷ ms) (ground arith)),
  λ (long, good). ground (arith, items_good (m ∷ ms) good),
)
nonempty-IsAccepted m ms false =
    (λ e. (omega arith, IsGood-items (m ∷ ms) e), λ (long, good). items_good (m ∷ ms) good)

-- A report passes exactly when it has at least one entry, or 15 where the whole band is required, and each
-- entry has a frequency in the CBRS band, a bandwidth of 10 MHz and a power.
pub validate-IsAccepted :
    (report : MeasReport) (full : Bool)
    → (validate_meas_report report full ≡ none) ↔ IsAccepted full report
unfolding validate_meas_report
validate-IsAccepted (reports []) true = (λ e. cc, λ h. absurd (omega arith))
validate-IsAccepted (reports []) false = (λ e. cc, λ h. absurd (omega arith))
validate-IsAccepted (reports (m ∷ rest)) full = nonempty-IsAccepted m rest full
validate-IsAccepted r full = (λ e. cc, λ h. absurd h)
