-- ===== src/Spectrum/Offered.antt =====
-- services/spectrum_inquiry_service.py: what `_build_available_channels` offers.
use sas_core.Prelude.{
  ℕ, true, false, ◌&&◌, ◌≡◌, refl, ◌∙◌, sym, Option, none, some, List, [], ◌∷◌, ◌++◌, any,
  string_eq, arith,
}
use mathlib.Core.Bool.{false≢true}
use sas_core.Records.{Cbsd}
use sas_core.Store.{Store, Checks, Range, Location}
use sas_core.Spectrum.Ranges.{within, covers}
use sas_core.Spectrum.Available.{
  PalState, clip_inquired, channels_of, split_segments, offer, offer_after, after_exclusions,
  build_available_channels,
}
use sas_core.Spectrum.PalLoop.{
  protects, licensed, after_zones, zones_shrink, zones_grow, zones_clear,
}
use sas_core.Spectrum.Coverage.{
  band, covers-clip, covers-split_segments, wisp_takes, fss_takes, covers-located_segments, offers,
  offers-sort,
}

offers_of-gaa :
    (f : ℕ) (pals gaas : List Range)
    → offers "GAA" f (channels_of "PAL" pals ++ channels_of "GAA" gaas) ≡ covers f gaas
unfolding channels_of
offers_of-gaa f [] [] = refl
offers_of-gaa f [] (g ∷ gs) = ground (arith, offers_of-gaa f [] gs)
offers_of-gaa f (p ∷ ps) gaas = offers_of-gaa f ps gaas

offers_of-pal :
    (f : ℕ) (pals gaas : List Range)
    → offers "PAL" f (channels_of "PAL" pals ++ channels_of "GAA" gaas) ≡ covers f pals
unfolding channels_of
offers_of-pal f [] [] = refl
offers_of-pal f [] (g ∷ gs) = offers_of-pal f [] gs
offers_of-pal f (p ∷ ps) gaas = ground (arith, offers_of-pal f ps gaas)

offer-gaa :
    (f : ℕ) (st : PalState) → offers "GAA" f (offer st) ≡ (covers f st.segments && within f band)
unfolding offer
offer-gaa f st =
    offers-sort "GAA" f _
    ∙ offers_of-gaa f st.pal_channels (split_segments st.segments)
    ∙ covers-split_segments f st.segments

offer-pal : (f : ℕ) (st : PalState) → offers "PAL" f (offer st) ≡ covers f st.pal_channels
unfolding offer
offer-pal f st =
    offers-sort "PAL" f _ ∙ offers_of-pal f st.pal_channels (split_segments st.segments)

gaa_shrinks :
    (env : Checks) (db : Store) (c : Cbsd) (f : ℕ) (left : Option (List Range))
    → offers "GAA" f (offer_after env db c left) ≡ true
    → (segments : List Range) × (left ≡ some segments)
      × ((covers f segments && within f band) ≡ true)
      × (any (protects env db c f) db.zones ≡ false)
unfolding offer_after
gaa_shrinks env db c f none h = absurd (false≢true h)
gaa_shrinks env db c f (some segments) h = (
  segments,
  refl,
  ground (arith, offer-gaa f (after_zones env db c f segments), zones_shrink env db c f segments),
  ground (arith, offer-gaa f (after_zones env db c f segments), zones_clear env db c f segments),
)

pal_grows :
    (env : Checks) (db : Store) (c : Cbsd) (f : ℕ) (left : Option (List Range))
    → offers "PAL" f (offer_after env db c left) ≡ true
    → any (licensed env db c f) db.zones ≡ true
unfolding offer_after
pal_grows env db c f none h = absurd (false≢true h)
pal_grows env db c f (some segments) h =
    zones_grow env db c f segments (sym (offer-pal f (after_zones env db c f segments)) ∙ h)

-- For a CBSD at a known place, with usable exclusion data: a frequency that is offered as GAA was
-- inquired, lies in the CBRS band, and is taken away by no exclusion range at the place, by no WISP
-- zone around it and by no FSS near it; nor is it on the channel of a PAL of a PPA that lists the CBSD in
-- its cluster or holds its place.
pub gaa_offered :
    (env : Checks) (db : Store) (c : Cbsd) (f : ℕ) (inquired exs : List Range) (loc : Location)
    → c.registration.location ≡ some loc
    → env.exclusion_ranges db loc ≡ some exs
    → offers "GAA" f (build_available_channels env db c inquired) ≡ true
    → (covers f inquired ≡ true)
      × (within f band ≡ true)
      × (covers f exs ≡ false)
      × (any (wisp_takes env loc f) db.wisps ≡ false)
      × (any (fss_takes env loc f) db.fsses ≡ false)
      × (any (protects env db c f) db.zones ≡ false)
unfolding build_available_channels after_exclusions
gaa_offered env db c f inquired exs loc at data_ok h =
    let (left, e, exact) =
      covers-located_segments env db loc f (clip_inquired inquired) exs data_ok in
    let e' : after_exclusions env db c (clip_inquired inquired) ≡ some left =
      rw (at, after_exclusions) e in
    ground (
      arith,
      exact,
      covers-clip f inquired,
      gaa_shrinks env db c f (some left) (rw (e', build_available_channels) at h),
    )

-- A frequency is offered as PAL only in the cluster of a PPA for a PAL of that channel which the
-- CBSD's user owns.
pub pal_offered :
    (env : Checks) (db : Store) (c : Cbsd) (f : ℕ) (inquired : List Range)
    → offers "PAL" f (build_available_channels env db c inquired) ≡ true
    → any (licensed env db c f) db.zones ≡ true
unfolding build_available_channels
pal_offered env db c f inquired h =
    pal_grows env db c f (after_exclusions env db c (clip_inquired inquired)) h
