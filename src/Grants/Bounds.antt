-- ===== src/Grants/Bounds.antt =====
-- services/grant_service.py: the frequencies, the power and the times of an issued grant.
use sas_core.Prelude.{
  ℕ, ◌≤◌, ◌<◌, String, ◌==◌, string_eq, Bool-cases, List, Bool, true, false, ◌⊎◌, if◌then◌else◌,
  ◌≡◌, inl, inr, refl, sym, ◌∙◌, ap, subst, Option, none, some, none-ne-some, some-injective, [],
  ◌∷◌, ◌++◌, arith,
}
use sas_core.Prelude.Int.{ℤ, ◌≤ℤ◌, ◌-ℤ◌, min_ℤ, ltb_ℤ, pos, negsuc}
use sas_core.Number.{Number, finite, nan, infinite, neg_infinite, is_below}
use sas_core.Codes.{blacklisted, invalid_param, interference}
use sas_core.Renewal.{upper_is, or_text}
use sas_core.Clock.{add_seconds}
use sas_core.Records.{Cbsd, Grant}
use sas_core.Store.{Store, Checks, Range}
use sas_core.Auth.{lock_cbsd_row, is_cbsd_blacklisted}
use sas_core.Spectrum.{
  Field, absent, null, malformed, int, RawRange, not_a_dict, range, Result, ok, err, ◌>>=◌,
  check_fields, check_bounds, cbrs_low_hz, cbrs_high_hz,
}
use sas_core.Heartbeat.Window.{transmit_ends}
use sas_core.Grants.Channel.{
  category_limit, cap_by, to_mhz, max_allowed_eirp_mhz, fcc_max_eirp, resolve_channel,
  ppa_pal_context,
}
use sas_core.Grants.Proposal.{
  GrantRequest, GrantReply, parse_freq, refuse_if, meas_check, meas_code, required_param,
  parse_eirp, blocked_at, crosses_border, Proposal, propose,
}
use sas_core.Grants.Admission.{
  new_grant, expire_for, insert_grant, BatchState, admit, grant_reply, grant_one,
}
use sas_core.Grants.Sound.{grant-Decided}

bind_ok {ℓ κ} :
    {A : Type ℓ} {B : Type κ} (r : Result A) (f : A → Result B) (b : B)
    → (r >>= f) ≡ ok b
    → (a : A) × (r ≡ ok a) × (f a ≡ ok b)
bind_ok (ok a) f b h = (a, refl, h)
bind_ok (err code) f b h = ground arith

-- Within the CBRS band, and not empty.
abbrev pub InBand : Range → Type 0
InBand r = (cbrs_low_hz ≤ r.0) × (r.0 < r.1) × (r.1 ≤ cbrs_high_hz)

ok_inj {ℓ} : {A : Type ℓ} (a b : A) → Path (Result A) (ok a) (ok b) → a ≡ b
ok_inj a b h = ap (λ r. elim r [ ok x ↦ x | err code ↦ a ]) h

bounds-InBand : (low high : ℤ) (r : Range) → check_bounds low high ≡ ok r → InBand r
unfolding check_bounds
bounds-InBand (pos a) (pos b) (l, u) h = ground arith
bounds-InBand (pos a) (negsuc b) (l, u) h = ground arith
bounds-InBand (negsuc a) (pos b) (l, u) h = ground arith
bounds-InBand (negsuc a) (negsuc b) (l, u) h = ground arith

fields-InBand : (low high : Field) (r : Range) → check_fields low high ≡ ok r → InBand r
unfolding check_fields
fields-InBand absent high r h = ground arith
fields-InBand null absent r h = ground arith
fields-InBand null null r h = ground arith
fields-InBand null malformed r h = ground arith
fields-InBand null (int b) r h = ground arith
fields-InBand malformed absent r h = ground arith
fields-InBand malformed null r h = ground arith
fields-InBand malformed malformed r h = ground arith
fields-InBand malformed (int b) r h = ground arith
fields-InBand (int a) absent r h = ground arith
fields-InBand (int a) null r h = ground arith
fields-InBand (int a) malformed r h = ground arith
fields-InBand (int a) (int b) r h = bounds-InBand a b r h

freq-InBand : (raw : RawRange) (r : Range) → parse_freq raw ≡ ok r → InBand r
unfolding parse_freq
freq-InBand not_a_dict r h = ground arith
freq-InBand (range low high) r h = fields-InBand low high r h

-- The category that was registered, else that of the row, else A.
abbrev pub in_category_a : Cbsd → Bool
in_category_a c = upper_is (or_text c.registration.cbsd_category (or_text c.cbsd_category "A")) "A"

-- The limit of an FCC id is that of its first row, and 47 dBm without one.
pub data FccLimit (fcc : String) : List (String × ℤ) → ℤ → Type 0 where
  unlisted : FccLimit fcc [] (pos 47_000)
  first :
      {id : String} {cap : ℤ} {rows : List (String × ℤ)}
      → (id == fcc) ≡ true
      → FccLimit fcc ((id, cap) ∷ rows) cap
  later :
      {id : String} {cap limit : ℤ} {rows : List (String × ℤ)}
      → (id == fcc) ≡ false
      → FccLimit fcc rows limit
      → FccLimit fcc ((id, cap) ∷ rows) limit

fcc_max-FccLimit :
    (fcc : String) (rows : List (String × ℤ)) → FccLimit fcc rows (fcc_max_eirp rows fcc)
unfolding fcc_max_eirp
fcc_max-FccLimit fcc [] = unlisted
fcc_max-FccLimit fcc ((id, cap) ∷ rows) = elim (Bool-cases (id == fcc)) [
  | inl e ↦ rw e (first e)
  | inr e ↦ rw e (later e (fcc_max-FccLimit fcc rows))
]

-- What a CBSD may ask for in dBm/MHz: 20 in category A (30 dBm in 10 MHz) and 37 in every other (47 dBm in
-- 10 MHz), the limit of the FCC id less 10 dB, and the capability it registered less 10 dB, unless that is
-- NaN or infinite.
pub data IsAllowed (db : Store) (c : Cbsd) (eirp : ℤ) : Type 0 where
  allowed :
      ((in_category_a c ≡ true) × (eirp ≤ℤ pos 20_000))
        ⊎ ((in_category_a c ≡ false) × (eirp ≤ℤ pos 37_000))
      → (fcc_limit : ℤ) → FccLimit c.fcc_id db.fcc_max_eirps fcc_limit
      → eirp ≤ℤ fcc_limit -ℤ pos 10_000
      → (c.registration.eirp_capability ≡ none)
        ⊎ (c.registration.eirp_capability ≡ some nan)
        ⊎ (c.registration.eirp_capability ≡ some infinite)
        ⊎ ((cap : ℤ) × (c.registration.eirp_capability ≡ some (finite cap))
            × (eirp ≤ℤ cap -ℤ pos 10_000))
      → IsAllowed db c eirp

not_refused : (b : Bool) (u : Unit) → refuse_if b invalid_param ≡ ok u → b ≡ false
not_refused b u h = ground arith

by_category :
    (a : Bool) (fcc_max eirp : ℤ)
    → ltb_ℤ (min_ℤ (if a then pos 30_000 else pos 47_000) fcc_max -ℤ pos 10_000) eirp ≡ false
    → (((a ≡ true) × (eirp ≤ℤ pos 20_000)) ⊎ ((a ≡ false) × (eirp ≤ℤ pos 37_000)))
      × (eirp ≤ℤ fcc_max -ℤ pos 10_000)
by_category true fcc_max eirp h = (inl (refl, ground arith), ground arith)
by_category false fcc_max eirp h = (inr (refl, ground arith), ground arith)

below_cap :
    (limit cap eirp : ℤ)
    → ltb_ℤ (min_ℤ limit cap -ℤ pos 10_000) eirp ≡ false
    → (ltb_ℤ (limit -ℤ pos 10_000) eirp ≡ false) × (eirp ≤ℤ cap -ℤ pos 10_000)
below_cap limit cap eirp h = (ground arith, ground arith)

power_limits :
    (db : Store) (c : Cbsd) (eirp : ℤ)
    → is_below (max_allowed_eirp_mhz c (fcc_max_eirp db.fcc_max_eirps c.fcc_id)) eirp ≡ false
    → IsAllowed db c eirp
unfolding max_allowed_eirp_mhz category_limit is_below to_mhz
power_limits db c eirp h = by_cap c.registration.eirp_capability refl h
  where
    fcc_max : ℤ
    fcc_max = fcc_max_eirp db.fcc_max_eirps c.fcc_id

    listed : FccLimit c.fcc_id db.fcc_max_eirps fcc_max
    listed = fcc_max-FccLimit c.fcc_id db.fcc_max_eirps

    by_cap :
        (o : Option Number)
        → c.registration.eirp_capability ≡ o
        → is_below (to_mhz (cap_by o (min_ℤ (category_limit c) fcc_max))) eirp ≡ false
        → IsAllowed db c eirp
    by_cap none e h =
        let (category, fcc) = by_category _ fcc_max eirp h in
        allowed category fcc_max listed fcc (inl e)
    by_cap (some nan) e h =
        let (category, fcc) = by_category _ fcc_max eirp h in
        allowed category fcc_max listed fcc (inr (inl e))
    by_cap (some infinite) e h =
        let (category, fcc) = by_category _ fcc_max eirp h in
        allowed category fcc_max listed fcc (inr (inr (inl e)))
    by_cap (some (finite cap)) e h =
        let (limit, own) = below_cap _ cap eirp h in
        let (category, fcc) = by_category _ fcc_max eirp limit in
        allowed category fcc_max listed fcc (inr (inr (inr (cap, e, own))))
    by_cap (some neg_infinite) e h = cc

-- What a proposal was checked for.
propose_ok :
    (env : Checks) (db : Store) (c : Cbsd) (req : GrantRequest) (p : Proposal)
    → propose env db c req ≡ ok p
    → InBand p.frequency
      × IsAllowed db c p.max_eirp
      × (resolve_channel (ppa_pal_context env db c db.zones) p.frequency c.user_id ≡ ok p.channel)
unfolding propose
propose_ok env db c req p h =
    let limit = max_allowed_eirp_mhz c (fcc_max_eirp db.fcc_max_eirps c.fcc_id) in
    let (u1, e1, h1) =
      bind_ok (refuse_if (is_cbsd_blacklisted db c.fcc_id c.cbsd_serial_number) blacklisted) _ p
        h in
    let (u2, e2, h2) = bind_ok (meas_check (meas_code db c req.meas_report)) _ p h1 in
    let (op, e3, h3) = bind_ok (required_param req.operation_param) _ p h2 in
    let (freq, e4, h4) = bind_ok (parse_freq op.frequency_range) _ p h3 in
    let (eirp, e5, h5) = bind_ok (parse_eirp op.max_eirp) _ p h4 in
    let (u6, e6, h6) = bind_ok (refuse_if (is_below limit eirp) invalid_param) _ p h5 in
    let (choice, e7, h7) =
      bind_ok (resolve_channel (ppa_pal_context env db c db.zones) freq c.user_id) _ p h6 in
    let (u8, e8, h8) =
      bind_ok (refuse_if (blocked_at env db c freq eirp c.registration.location) interference) _ p
        h7 in
    let (u9, e9, h9) = bind_ok (refuse_if (crosses_border env c freq eirp) interference) _ p h8 in
    let is_p = ok_inj _ p h9 in
    subst
      (λ (q : Proposal).
        InBand q.frequency
        × IsAllowed db c q.max_eirp
        × (resolve_channel (ppa_pal_context env db c db.zones) q.frequency c.user_id
            ≡ ok q.channel))
      is_p (freq-InBand _ freq e4, power_limits db c eirp (not_refused _ _ e6), e7)

expire_bound : (exp : Option ℕ) (now : ℕ) → expire_for exp now ≤ add_seconds now 900
unfolding expire_for
expire_bound none now = omega arith
expire_bound (some t) now = omega arith

-- What is stored for a request whose grant is issued.
abbrev pub Issued : Checks → BatchState → ℕ → Grant → Type 0
Issued env st now g =
    (c : Cbsd) × (tx : ℕ) × (lock_cbsd_row st.0.cbsds g.cbsd_id ≡ some c)
    × InBand (g.low_frequency, g.high_frequency)
    × ((eirp : ℤ) × (g.max_eirp ≡ some eirp) × IsAllowed st.0 c eirp)
    × (g.grant_expire_time ≤ add_seconds now 900)
    × (g.transmit_expire_time ≡ some tx)
    × (tx ≤ g.grant_expire_time)

admit-Issued :
    (env : Checks) (st : BatchState) (c : Cbsd) (cid : String) (req : GrantRequest) (p : Proposal)
    (now : ℕ)
    → lock_cbsd_row st.0.cbsds cid ≡ some c
    → propose env st.0 c req ≡ ok p
    → Issued env st now (new_grant env st.0 c cid req p now)
unfolding new_grant
admit-Issued env st c cid req p now hc hp =
    let (band, power, channel) = propose_ok env st.0 c req p hp in
    let window =
      transmit_ends env st.0 c (expire_for p.channel.license_exp now) p.frequency.0 p.frequency.1
        now in
    (
      c,
      _,
      hc,
      band,
      (p.max_eirp, refl, power),
      expire_bound p.channel.license_exp now,
      refl,
      window.0,
    )

-- A grant request that is answered with a grant adds exactly one row, of a registered CBSD: its range lies in
-- 3550-3700 MHz and is not empty; its power in dBm/MHz is at most 20 in category A and 37 in any other, and
-- at most 10 dB below the limit of the FCC id and the finite capability that is registered; it runs out
-- within 900 seconds, and its transmission ends no later.
pub grant-Issued :
    (env : Checks) (hash : Option String) (st : BatchState) (now : ℕ) (req : GrantRequest)
    (gid : String)
    → (grant_one env hash st now req).0.grant_id ≡ some gid
    → (g : Grant) × (g.grant_id ≡ gid)
      × ((grant_one env hash st now req).1.0.grants ≡ st.0.grants ++ (g ∷ []))
      × Issued env st now g
unfolding insert_grant admit grant_reply
grant-Issued env hash st now req gid h = elim (grant-Decided env hash st now req) [
  | inl (no_grant, same) ↦ absurd (none-ne-some gid (sym no_grant ∙ h))
  | inr (cid, c, p, hp, hc, m, hq, f, a, v, is_it) ↦ (
    new_grant env st.0 c cid req p now,
    some-injective _ _ (sym (ap (λ (r : GrantReply × BatchState). r.0.grant_id) is_it) ∙ h),
    ap (λ (r : GrantReply × BatchState). r.1.0.grants) is_it,
    admit-Issued env st c cid req p now hc hq,
  )
]
