-- ===== src/Renewal/Applied.antt =====
-- services/grant_renewal.py: what `apply_renewal` writes to the row.
use sas_core.Prelude.{
  ℕ, Bool, true, false, ◌≡◌, ◌≢◌, ◌⊎◌, inl, inr, refl, sym, ◌∙◌, ap, subst, Option, none, some,
  if◌then◌else◌, Bool-cases, arith,
}
use sas_core.Codes.{success}
use sas_core.Clock.{trunc_sec}
use sas_core.Records.{Grant, AuthContext}
use sas_core.Store.{Store}
use sas_core.Renewal.{
  RenewalResult, RenewalDetail, terminal_or_expired, grant_already_expired, pal_license_invalid,
  pal_license_missing, pal_license_expired, refuse, renew_until, renew_pal, write_cap, sync_context,
  note_drift, apply_expiration, compute_renewal, apply_result, apply_renewal, extend_grant,
  sync_auth_context, resolve_pal_license_cap, load_auth_context, refresh_protection_stamp,
  protection_stamp_drifted, upper_is, or_text,
}

-- Refused with an error code, or an expiration is set.
data Verdict (r : RenewalResult) : Type 0 where
  is_refused : r.is_ok ≡ false → r.response_code ≢ success → Verdict r
  sets : r.is_ok ≡ true → (t : ℕ) → r.new_expire ≡ some t → Verdict r

Verdict-if : (b : Bool) (r s : RenewalResult) → Verdict r → Verdict s → Verdict (if b then r else s)
Verdict-if true r s h k = h
Verdict-if false r s h k = k

refuse-Verdict : (d : RenewalDetail) → Verdict (refuse d)
refuse-Verdict d = is_refused refl (omega arith)

renew_until-Verdict : (t : ℕ) → Verdict (renew_until t)
renew_until-Verdict t = sets refl t refl

renew_pal-Verdict :
    (wall : ℕ) (status : Option Bool) (c : Option ℕ) → Verdict (renew_pal wall status c)
unfolding renew_pal
renew_pal-Verdict wall (some false) c = refuse-Verdict pal_license_invalid
renew_pal-Verdict wall none none = refuse-Verdict pal_license_missing
renew_pal-Verdict wall (some true) none = refuse-Verdict pal_license_missing
renew_pal-Verdict wall none (some t) =
    Verdict-if _ _ _ (refuse-Verdict pal_license_expired) (renew_until-Verdict _)
renew_pal-Verdict wall (some true) (some t) =
    Verdict-if _ _ _ (refuse-Verdict pal_license_expired) (renew_until-Verdict _)

compute_renewal-Verdict : (db : Store) (g : Grant) (now : ℕ) → Verdict (compute_renewal db g now)
unfolding compute_renewal
compute_renewal-Verdict db g now = Verdict-if _ _ _ (refuse-Verdict terminal_or_expired) (
    Verdict-if _ _ _ (refuse-Verdict grant_already_expired)
      (Verdict-if _ _ _ (renew_pal-Verdict _ _ _) (renew_until-Verdict _)))

-- The stored PAL expiration after a renewal: that of a PAL context is the cap in force, if there is one;
-- any other context is as before.
pub data Synced (db : Store) (g : Grant) (after : Option AuthContext) : Type 0 where
  is_kept :
      (g.auth_context ≡ none)
        ⊎ ((ctx : AuthContext) × (g.auth_context ≡ some ctx)
            × ((upper_is (or_text ctx.channel_type "") "PAL" ≡ false)
                ⊎ (resolve_pal_license_cap db g ≡ none)))
      → after ≡ g.auth_context
      → Synced db g after
  is_capped :
      (ctx : AuthContext) (cap : ℕ)
      → g.auth_context ≡ some ctx
      → upper_is (or_text ctx.channel_type "") "PAL" ≡ true
      → resolve_pal_license_cap db g ≡ some cap
      → after ≡ some (record ctx { pal_license_expiration = some (trunc_sec cap) })
      → Synced db g after

-- An extended grant is the same row, but for the new expiration, the generations of the federal data in
-- use, and the expiration in its PAL context.
abbrev pub Extended : Store → Grant → ℕ → Grant → Type 0
Extended db g t row =
    (row ≡ record g { grant_expire_time = t; stamp = db.sync; auth_context = row.auth_context })
    × Synced db g row.auth_context

-- The row before the context is written.
restamped : Store → Grant → ℕ → Grant
restamped db g t = record g { grant_expire_time = t; stamp = db.sync }

cap-Extended :
    (db : Store) (g : Grant) (t : ℕ) (ctx : AuthContext) (o : Option ℕ)
    → g.auth_context ≡ some ctx
    → upper_is (or_text ctx.channel_type "") "PAL" ≡ true
    → resolve_pal_license_cap db g ≡ o
    → Extended db g t (write_cap (restamped db g t) ctx o)
unfolding write_cap restamped
cap-Extended db g t ctx none e p h = (refl, is_kept (inr (ctx, e, inr h)) refl)
cap-Extended db g t ctx (some x) e p h = (refl, is_capped ctx x e p h refl)

context-Extended :
    (db : Store) (g : Grant) (t : ℕ) (o : Option AuthContext)
    → g.auth_context ≡ o
    → Extended db g t (sync_context db (restamped db g t) o)
unfolding sync_context restamped resolve_pal_license_cap load_auth_context
context-Extended db g t none e = (refl, is_kept (inl e) refl)
context-Extended db g t (some ctx) e =
    elim (Bool-cases (upper_is (or_text ctx.channel_type "") "PAL")) [
      | inl pal ↦ rw pal (cap-Extended db g t ctx _ e pal refl)
      | inr other ↦ rw other (refl, is_kept (inr (ctx, e, inl other)) refl)
    ]

extend-Extended : (db : Store) (g : Grant) (t : ℕ) → Extended db g t (extend_grant db g t)
unfolding extend_grant refresh_protection_stamp sync_auth_context restamped
extend-Extended db g t = context-Extended db g t g.auth_context refl

drift_same :
    (b : Bool) (r : RenewalResult)
    → ((note_drift b r).is_ok ≡ r.is_ok) × ((note_drift b r).response_code ≡ r.response_code)
unfolding note_drift
drift_same true r = (refl, refl)
drift_same false r = (refl, refl)

result_refused :
    (db : Store) (g : Grant) (r : RenewalResult) → r.is_ok ≡ false → apply_result db g r ≡ (r, g)
unfolding apply_result
result_refused db g r h = ap (λ b. if b then apply_expiration db g r r.new_expire else (r, g)) h

result_granted :
    (db : Store) (g : Grant) (r : RenewalResult) (t : ℕ)
    → r.is_ok ≡ true
    → r.new_expire ≡ some t
    → apply_result db g r ≡ (note_drift (protection_stamp_drifted db g) r, extend_grant db g t)
unfolding apply_result apply_expiration
result_granted db g r t h e =
    ap (λ b. if b then apply_expiration db g r r.new_expire else (r, g)) h
    ∙ ap (apply_expiration db g r) e

-- A renewal that is refused answers an error code and leaves the row as it was; one that is granted gives
-- the row the computed expiration and the generations of the federal data in use, sets the expiration
-- stored in a PAL context to the cap in force, if there is one, and leaves every other column.
pub apply_renewal_effect :
    (db : Store) (g : Grant) (now : ℕ)
    → (((apply_renewal db g now).0.is_ok ≡ false)
        × ((apply_renewal db g now).0.response_code ≢ success)
        × ((apply_renewal db g now).1 ≡ g))
      ⊎ (((apply_renewal db g now).0.is_ok ≡ true)
          × ((t : ℕ) × ((compute_renewal db g now).new_expire ≡ some t)
              × Extended db g t (apply_renewal db g now).1))
unfolding apply_renewal
apply_renewal_effect db g now = elim (compute_renewal-Verdict db g now) [
  | is_refused no_op code ↦ inl (
      subst
        (λ (p : RenewalResult × Grant).
          (p.0.is_ok ≡ false) × (p.0.response_code ≢ success) × (p.1 ≡ g))
        (sym (result_refused db g (compute_renewal db g now) no_op)) (no_op, code, refl))
  | sets fine t e ↦
      let same = drift_same (protection_stamp_drifted db g) (compute_renewal db g now) in
      let done : (((apply_renewal db g now).0.is_ok ≡ true)
          × Extended db g t (apply_renewal db g now).1) =
        subst (λ (p : RenewalResult × Grant). (p.0.is_ok ≡ true) × Extended db g t p.1)
          (sym (result_granted db g (compute_renewal db g now) t fine e))
          (same.0 ∙ fine, extend-Extended db g t) in
      inr (done.0, (t, e, done.1))
]
