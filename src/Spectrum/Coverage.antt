-- ===== src/Spectrum/Coverage.antt =====
-- services/spectrum_inquiry_service.py: which frequencies the steps of `_build_available_channels` keep.
use mathlib.Core.List.{foldl}
use sas_core.Prelude.{
  ℕ, String, Bool, false, ◌&&◌, not, ◌≡◌, refl, ◌∙◌, ◌≤◌, ◌<◌, none, some, List, [], ◌∷◌, any, min,
  max, ◌==◌, string_eq, arith,
}
use native.Mathlib.Decide.{dec_lt}
use sas_core.Store.{Store, Checks, Range, Location, Wisp, Fss}
use sas_core.Spectrum.Ranges.{cbrs_low_hz, cbrs_high_hz, within, covers}
use sas_core.Spectrum.Split.{split_10mhz}
use sas_core.Spectrum.SubtractExact.{covers-subtract, covers-append}
use sas_core.Spectrum.Tiles.{TilesFrom, split-TilesFrom}
use sas_core.Spectrum.Available.{
  Channel, fss_exclusion_low_hz, clip_inquired, exclude_range, exclude_wisp, exclude_fss,
  located_segments, split_segments, insert_channel, sort_channels,
}

abbrev pub band : Range
band = (cbrs_low_hz, cbrs_high_hz)

pub covers-clip :
    (f : ℕ) (rs : List Range) → covers f (clip_inquired rs) ≡ (covers f rs && within f band)
unfolding clip_inquired
covers-clip f [] = refl
covers-clip f ((low, high) ∷ rest) = ground (arith, covers-clip f rest)

covers-tiles :
    (f start end : ℕ) (rs : List Range)
    → TilesFrom start end rs
    → (start ≤ end) × (covers f rs ≡ within f (start, end))
covers-tiles f start end [] t = ground arith
covers-tiles f start end (r ∷ rest) t = ground (arith, covers-tiles f r.1 end rest)

split_apart :
    (low high : ℕ) → ¬ (max low cbrs_low_hz < min high cbrs_high_hz) → split_10mhz low high ≡ []
unfolding split_10mhz
split_apart low high h = ground arith

pub covers-split :
    (f low high : ℕ) → covers f (split_10mhz low high) ≡ (within f (low, high) && within f band)
covers-split f low high = elim (dec_lt (max low cbrs_low_hz) (min high cbrs_high_hz)) [
  | yes meets ↦ (covers-tiles f _ _ _ (split-TilesFrom low high meets)).1 ∙ ground arith
  | no apart ↦ rw (split_apart low high apart) (ground arith)
]

pub covers-split_segments :
    (f : ℕ) (rs : List Range) → covers f (split_segments rs) ≡ (covers f rs && within f band)
unfolding split_segments
covers-split_segments f [] = refl
covers-split_segments f ((low, high) ∷ rest) =
    covers-append f (split_10mhz low high) (split_segments rest)
    ∙ ground (arith, covers-split f low high, covers-split_segments f rest)

-- Whether a WISP, or an FSS site, takes a frequency away at a place.
abbrev pub wisp_takes : Checks → Location → ℕ → Wisp → Bool
wisp_takes env loc f w = elim w.frequency [
  | none ↦ false
  | some r ↦ env.point_in_geojson loc w.geometry && within f r
]

abbrev pub fss_takes : Checks → Location → ℕ → Fss → Bool
fss_takes env loc f s = elim s.site [
  | none ↦ false
  | some (at, b) ↦ env.within_fss_distance loc at && within f (fss_exclusion_low_hz, cbrs_high_hz)
]

-- A fold whose every step takes some frequencies away takes away what any of its steps does.
fold_takes :
    {A : Type 0} (f : ℕ) (step : List Range → A → List Range) (takes : A → Bool)
    → ((rs : List Range) (a : A) → covers f (step rs a) ≡ (covers f rs && not (takes a)))
    → (rs : List Range) (xs : List A)
    → covers f (foldl step rs xs) ≡ (covers f rs && not (any takes xs))
fold_takes f step takes one rs [] = ground arith
fold_takes f step takes one rs (a ∷ xs) =
    fold_takes f step takes one (step rs a) xs ∙ ground (arith, one rs a)

one_range :
    (f : ℕ) (rs : List Range) (r : Range)
    → covers f (exclude_range rs r) ≡ (covers f rs && not (within f r))
unfolding exclude_range
one_range f rs r = covers-subtract f rs r.0 r.1

one_wisp :
    (env : Checks) (loc : Location) (f : ℕ) (rs : List Range) (w : Wisp)
    → covers f (exclude_wisp env loc rs w) ≡ (covers f rs && not (wisp_takes env loc f w))
unfolding exclude_wisp
one_wisp env loc f rs w = grind (arith, covers-subtract)

one_fss :
    (env : Checks) (loc : Location) (f : ℕ) (rs : List Range) (s : Fss)
    → covers f (exclude_fss env loc rs s) ≡ (covers f rs && not (fss_takes env loc f s))
unfolding exclude_fss
one_fss env loc f rs s = ground (arith, covers-subtract f rs fss_exclusion_low_hz cbrs_high_hz)

-- At a known place with usable exclusion data, a frequency is left exactly when it was there and no
-- exclusion range, no WISP zone around the place and no FSS nearby takes it away.
pub covers-located_segments :
    (env : Checks) (db : Store) (loc : Location) (f : ℕ) (rs exs : List Range)
    → env.exclusion_ranges db loc ≡ some exs
    → (left : List Range) × (located_segments env db loc rs ≡ some left)
      × (covers f left ≡ (
          covers f rs
          && not (covers f exs)
          && not (any (wisp_takes env loc f) db.wisps)
          && not (any (fss_takes env loc f) db.fsses)))
unfolding located_segments
covers-located_segments env db loc f rs exs h =
    rw (h, located_segments)
      (
        foldl (exclude_fss env loc) after_wisps db.fsses,
        refl,
        fold_takes f (exclude_fss env loc) (fss_takes env loc f) (one_fss env loc f) after_wisps
              db.fsses
            ∙ ground (
              arith,
              fold_takes f (exclude_wisp env loc) (wisp_takes env loc f) (one_wisp env loc f)
                  after_zones db.wisps,
              fold_takes f exclude_range (within f) (one_range f) rs exs,
            ),
      )
  where
    after_zones : List Range
    after_zones = foldl exclude_range rs exs

    after_wisps : List Range
    after_wisps = foldl (exclude_wisp env loc) after_zones db.wisps

-- Offers of one kind that hold a frequency.
abbrev pub offers : String → ℕ → List Channel → Bool
offers kind f chs = any (λ ch. ch.channel_type == kind && within f (ch.low, ch.high)) chs

offers-insert :
    (kind : String) (f : ℕ) (ch : Channel) (chs : List Channel)
    → offers kind f (insert_channel ch chs) ≡ offers kind f (ch ∷ chs)
unfolding insert_channel
offers-insert kind f ch [] = refl
offers-insert kind f ch (x ∷ xs) = ground (arith, offers-insert kind f ch xs)

pub offers-sort :
    (kind : String) (f : ℕ) (chs : List Channel)
    → offers kind f (sort_channels chs) ≡ offers kind f chs
unfolding sort_channels
offers-sort kind f [] = refl
offers-sort kind f (x ∷ xs) =
    offers-insert kind f x (sort_channels xs) ∙ ground (arith, offers-sort kind f xs)
