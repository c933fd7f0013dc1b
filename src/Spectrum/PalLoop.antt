-- ===== src/Spectrum/PalLoop.antt =====
-- services/spectrum_inquiry_service.py: the loop over the PPAs and their PALs.
use mathlib.Core.List.{foldl}
use sas_core.Prelude.{
  ℕ, String, Bool, true, false, ◌&&◌, ◌||◌, ◌≡◌, refl, none, some, List, [], ◌∷◌, any, contains,
  string_eq, arith,
}
use sas_core.Records.{Cbsd}
use sas_core.Store.{Store, Checks, Range, Zone}
use sas_core.Spectrum.Ranges.{within, covers}
use sas_core.Spectrum.SubtractExact.{covers-subtract, covers-append}
use sas_core.Spectrum.Available.{
  PalState, owns_pal, pal_by_id, protect_pal, pal_step, is_ppa, in_zone, zone_step,
}

-- Folds over a state with one Boolean measure: it never rises, or rises only by a step that may.
fold_shrinks :
    {S A : Type 0} (m : S → Bool) (step : S → A → S)
    → ((s : S) (a : A) → m (step s a) ≡ true → m s ≡ true)
    → (s : S) (xs : List A) → m (foldl step s xs) ≡ true
    → m s ≡ true
fold_shrinks m step one s [] h = h
fold_shrinks m step one s (a ∷ xs) h = one s a (fold_shrinks m step one (step s a) xs h)

fold_grows :
    {S A : Type 0} (m : S → Bool) (step : S → A → S) (may : A → Bool)
    → ((s : S) (a : A) → m (step s a) ≡ true → (m s || may a) ≡ true)
    → (s : S) (xs : List A) → m (foldl step s xs) ≡ true
    → (m s || any may xs) ≡ true
fold_grows m step may one s [] h = ground arith
fold_grows m step may one s (a ∷ xs) h =
    ground (arith, fold_grows m step may one (step s a) xs h, one s a)

-- A step that may not have been taken, since it brings the measure down.
fold_avoids :
    {S A : Type 0} (m : S → Bool) (step : S → A → S) (bad : A → Bool)
    → ((s : S) (a : A) → m (step s a) ≡ true → m s ≡ true)
    → ((s : S) (a : A) → m (step s a) ≡ true → bad a ≡ false)
    → (s : S) (xs : List A) → m (foldl step s xs) ≡ true
    → any bad xs ≡ false
fold_avoids m step bad one clear s [] h = refl
fold_avoids m step bad one clear s (a ∷ xs) h =
    let now = clear s a (fold_shrinks m step one (step s a) xs h) in
    let rest = fold_avoids m step bad one clear (step s a) xs h in ground arith

any-and :
    {A : Type 0} (b : Bool) (p : A → Bool) (xs : List A) → any (λ x. b && p x) xs ≡ (b && any p xs)
any-and b p [] = ground arith
any-and b p (x ∷ xs) = ground (arith, any-and b p xs)

module _ (env : Checks) (db : Store) (c : Cbsd) (f : ℕ) where
  pal_step_shrinks :
      (member inside : Bool) (st : PalState) (id : String)
      → covers f (pal_step db c member inside st id).segments ≡ true
      → covers f st.segments ≡ true
  unfolding pal_step protect_pal
  pal_step_shrinks member inside st id h = grind (arith, covers-subtract)

  zone_step_shrinks :
      (st : PalState) (z : Zone)
      → covers f (zone_step env db c st z).segments ≡ true
      → covers f st.segments ≡ true
  unfolding zone_step
  zone_step_shrinks st z h = ground (arith, folded)
    where
      member : Bool
      member = contains c.cbsd_id z.cbsd_reference_ids

      inside : Bool
      inside = in_zone env c.registration.location z

      folded :
          covers f (foldl (pal_step db c member inside) st z.pal_ids).segments ≡ true
          → covers f st.segments ≡ true
      folded =
          fold_shrinks (λ (s : PalState). covers f s.segments) (pal_step db c member inside)
            (pal_step_shrinks member inside) st z.pal_ids

  -- The channel of the PAL of this id holds the frequency.
  abbrev pub on_channel : String → Bool
  on_channel id = elim (pal_by_id db.pals id) [
    | none ↦ false
    | some p ↦ elim p.frequency [ none ↦ false | some r ↦ within f r ]
  ]

  -- A PPA that lists the CBSD in its cluster or holds its place, for a PAL of this channel.
  abbrev pub protects : Zone → Bool
  protects z =
      is_ppa z
      && (contains c.cbsd_id z.cbsd_reference_ids || in_zone env c.registration.location z)
      && any on_channel z.pal_ids

  pal_step_clears :
      (member inside : Bool) (st : PalState) (id : String)
      → covers f (pal_step db c member inside st id).segments ≡ true
      → ((member || inside) && on_channel id) ≡ false
  unfolding pal_step protect_pal
  pal_step_clears member inside st id h = grind (arith, covers-subtract)

  zone_step_clears :
      (st : PalState) (z : Zone)
      → covers f (zone_step env db c st z).segments ≡ true
      → protects z ≡ false
  unfolding zone_step
  zone_step_clears st z h = ground (arith, folded, any_and)
    where
      member : Bool
      member = contains c.cbsd_id z.cbsd_reference_ids

      inside : Bool
      inside = in_zone env c.registration.location z

      folded :
          covers f (foldl (pal_step db c member inside) st z.pal_ids).segments ≡ true
          → any (λ id. (member || inside) && on_channel id) z.pal_ids ≡ false
      folded =
          fold_avoids (λ (s : PalState). covers f s.segments) (pal_step db c member inside)
            (λ id. (member || inside) && on_channel id) (pal_step_shrinks member inside)
            (pal_step_clears member inside) st z.pal_ids

      any_and :
          any (λ id. (member || inside) && on_channel id) z.pal_ids
          ≡ ((member || inside) && any on_channel z.pal_ids)
      any_and = any-and (member || inside) on_channel z.pal_ids

  -- The CBSD's user owns a PAL of this id, whose channel holds the frequency.
  abbrev pub entitled : String → Bool
  entitled id = owns_pal db.pals c.user_id id && (elim (pal_by_id db.pals id) [
    | none ↦ false
    | some p ↦ elim p.frequency [ none ↦ false | some r ↦ within f r ]
  ])

  -- A PPA that lists the CBSD in its cluster, for such a PAL.
  abbrev pub licensed : Zone → Bool
  licensed z = is_ppa z && contains c.cbsd_id z.cbsd_reference_ids && any entitled z.pal_ids

  pal_step_grows :
      (member inside : Bool) (st : PalState) (id : String)
      → covers f (pal_step db c member inside st id).pal_channels ≡ true
      → (covers f st.pal_channels || (member && entitled id)) ≡ true
  unfolding pal_step protect_pal
  pal_step_grows member inside st id h = grind (arith, covers-append)

  zone_step_grows :
      (st : PalState) (z : Zone)
      → covers f (zone_step env db c st z).pal_channels ≡ true
      → (covers f st.pal_channels || licensed z) ≡ true
  unfolding zone_step
  zone_step_grows st z h = ground (arith, folded, any_and)
    where
      member : Bool
      member = contains c.cbsd_id z.cbsd_reference_ids

      inside : Bool
      inside = in_zone env c.registration.location z

      folded :
          covers f (foldl (pal_step db c member inside) st z.pal_ids).pal_channels ≡ true
          → (covers f st.pal_channels || any (λ id. member && entitled id) z.pal_ids) ≡ true
      folded =
          fold_grows (λ (s : PalState). covers f s.pal_channels) (pal_step db c member inside)
            (λ id. member && entitled id) (pal_step_grows member inside) st z.pal_ids

      any_and : any (λ id. member && entitled id) z.pal_ids ≡ (member && any entitled z.pal_ids)
      any_and = any-and member entitled z.pal_ids

  -- The state of the PAL loop after every zone.
  abbrev pub after_zones : List Range → PalState
  after_zones segments =
      foldl (zone_step env db c) (record { segments = segments; pal_channels = [] }) db.zones

  pub zones_shrink :
      (segments : List Range)
      → covers f (after_zones segments).segments ≡ true
      → covers f segments ≡ true
  zones_shrink segments h =
      fold_shrinks (λ (s : PalState). covers f s.segments) (zone_step env db c) zone_step_shrinks
        (record { segments = segments; pal_channels = [] }) db.zones h

  pub zones_grow :
      (segments : List Range)
      → covers f (after_zones segments).pal_channels ≡ true
      → any licensed db.zones ≡ true
  zones_grow segments h =
      fold_grows (λ (s : PalState). covers f s.pal_channels) (zone_step env db c) licensed
        zone_step_grows (record { segments = segments; pal_channels = [] }) db.zones h

  pub zones_clear :
      (segments : List Range)
      → covers f (after_zones segments).segments ≡ true
      → any protects db.zones ≡ false
  zones_clear segments h =
      fold_avoids (λ (s : PalState). covers f s.segments) (zone_step env db c) protects
        zone_step_shrinks zone_step_clears (record { segments = segments; pal_channels = [] })
        db.zones h
