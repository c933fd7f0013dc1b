-- ===== src/Examples/Spectrum.antt =====
-- Spectrum inquiries, measurement reports and batches.
use sas_core.Prelude.{
  ℕ, zero, length, true, false, ◌&&◌, not, ◌≡◌, ◌↔◌, refl, none, some, List, [], ◌∷◌, any, map, min,
  max, string_eq, arith,
}
use sas_core.Prelude.Int.{pos}
use sas_core.Store.{Store, Range}
use sas_core.Spectrum.{
  subtract_range, within, covers, split_10mhz, located_segments, build_available_channels,
  cbrs_low_hz, cbrs_high_hz, int,
}
use sas_core.Spectrum.SubtractExact.{covers-subtract}
use sas_core.Spectrum.Tiles.{TilesFrom, split-TilesFrom}
use sas_core.Spectrum.Coverage.{covers-located_segments, offers, wisp_takes, fss_takes, band}
use sas_core.Spectrum.Offered.{gaa_offered, pal_offered}
use sas_core.Spectrum.PalLoop.{protects, licensed}
use sas_core.MeasReport.{MeasReport, reports, item, validate_meas_report}
use sas_core.MeasReport.Exact.{IsAccepted, validate-IsAccepted}
use sas_core.Batch.{Validated, bad, good, parse_items, parse_item_batch, merge_responses}
use sas_core.Batch.Merged.{in_order, merge-parse}
use sas_core.Examples.Data.{site, device, tables, calm}

abbrev whole : List Range
whole = (3_550_000_000, 3_700_000_000) ∷ []

covers-subtract_example :
    covers 3_600_000_000 (subtract_range whole 3_570_000_000 3_580_000_000)
    ≡ (covers 3_600_000_000 whole && not (within 3_600_000_000 (3_570_000_000, 3_580_000_000)))
covers-subtract_example = covers-subtract 3_600_000_000 whole 3_570_000_000 3_580_000_000

split-TilesFrom_example :
    TilesFrom
      (max 3_555_000_000 cbrs_low_hz)
      (min 3_575_000_000 cbrs_high_hz)
      (split_10mhz 3_555_000_000 3_575_000_000)
split-TilesFrom_example = split-TilesFrom 3_555_000_000 3_575_000_000 (omega arith)

covers-located_segments_example :
    (left : List Range) × (located_segments calm tables site whole ≡ some left)
    × (covers 3_600_000_000 left ≡ (
        covers 3_600_000_000 whole
        && not (covers 3_600_000_000 [])
        && not (any (wisp_takes calm site 3_600_000_000) tables.wisps)
        && not (any (fss_takes calm site 3_600_000_000) tables.fsses)))
covers-located_segments_example =
    covers-located_segments calm tables site 3_600_000_000 whole [] refl

abbrev asked : List Range
asked = (3_550_000_000, 3_560_000_000) ∷ []

asked-offered :
    offers "GAA" 3_555_000_000 (build_available_channels calm tables device asked) ≡ true
unfolding build_available_channels sas_core.Spectrum.offer_after sas_core.Spectrum.after_exclusions
    located_segments sas_core.Spectrum.offer sas_core.Spectrum.sort_channels
    sas_core.Spectrum.channels_of sas_core.Spectrum.split_segments sas_core.Spectrum.clip_inquired
    split_10mhz sas_core.Spectrum.split_clipped sas_core.Spectrum.align sas_core.Spectrum.split_loop
asked-offered = refl

gaa_offered_example :
    (covers 3_555_000_000 asked ≡ true)
    × (within 3_555_000_000 band ≡ true)
    × (covers 3_555_000_000 [] ≡ false)
    × (any (wisp_takes calm site 3_555_000_000) tables.wisps ≡ false)
    × (any (fss_takes calm site 3_555_000_000) tables.fsses ≡ false)
    × (any (protects calm tables device 3_555_000_000) tables.zones ≡ false)
gaa_offered_example =
    gaa_offered calm tables device 3_555_000_000 asked [] site refl refl asked-offered

-- The user of the device holds a PAL of the inquired channel, and a PPA names the device.
abbrev licensed_tables : Store
licensed_tables = record tables {
  pals =
      record {
        pal_id = some "pal/1";
        user_id = some "user";
        frequency = some (3_550_000_000, 3_560_000_000);
        license_expiration = none;
      }
      ∷ [];
  zones =
      record {
        usage = some "PPA";
        has_ppa_info = true;
        cbsd_reference_ids = "fcc/1" ∷ [];
        pal_ids = "pal/1" ∷ [];
        geometry = "";
      }
      ∷ [];
}

asked-licensed :
    offers "PAL" 3_555_000_000 (build_available_channels calm licensed_tables device asked) ≡ true
unfolding build_available_channels sas_core.Spectrum.offer_after sas_core.Spectrum.after_exclusions
    located_segments sas_core.Spectrum.offer sas_core.Spectrum.sort_channels
    sas_core.Spectrum.channels_of sas_core.Spectrum.zone_step sas_core.Spectrum.is_ppa
    sas_core.Spectrum.pal_step sas_core.Spectrum.pal_by_id sas_core.Spectrum.protect_pal
    sas_core.Spectrum.owns_pal sas_core.Spectrum.clip_inquired sas_core.Spectrum.overlaps
    sas_core.Spectrum.split_segments subtract_range
asked-licensed = refl

pal_offered_example :
    any (licensed calm licensed_tables device 3_555_000_000) licensed_tables.zones ≡ true
pal_offered_example = pal_offered calm licensed_tables device 3_555_000_000 asked asked-licensed

abbrev measured : MeasReport
measured = reports (item (int (pos 3_560_000_000)) (int (pos 10_000_000)) (int (pos 0)) ∷ [])

validate-IsAccepted_example :
    (validate_meas_report measured false ≡ none) ↔ IsAccepted false measured
validate-IsAccepted_example = validate-IsAccepted measured false

-- A schema that knows even numbers only.
abbrev even_item : ℕ → Validated ℕ
even_item zero = good 0
even_item n = bad 103

abbrev answer_code : ℕ → ℕ → ℕ
answer_code idx code = code

abbrev raws : List ℕ
raws = 5 ∷ 0 ∷ 7 ∷ []

abbrev replies : List ℕ
replies = 200 ∷ []

one-due : length replies ≡ length (parse_items even_item 0 raws).service_index_map
unfolding parse_items
one-due = refl

merge-parse_example :
    (parse_item_batch even_item 100 raws ≡ some (parse_items even_item 0 raws))
    × (merge_responses answer_code 103
          (parse_items even_item 0 raws).schema_error_codes
          (parse_items even_item 0 raws).service_index_map
          replies
        ≡ some (in_order answer_code 0 (map even_item raws) replies))
merge-parse_example = merge-parse even_item answer_code 103 100 raws replies (omega arith) one-due
