-- ===== src/Renewal/Window.antt =====
-- services/grant_renewal.py: how far a renewal reaches.
use sas_core.Prelude.{
  ℕ, Bool, true, false, ◌≡◌, ◌≢◌, refl, ◌⊎◌, ◌≤◌, ◌<◌, Option, none, some, arith, inl, inr,
}
use sas_core.Clock.{trunc_sec, add_seconds}
use sas_core.Records.{Grant}
use sas_core.Store.{Store}
use sas_core.Lifecycle.{is_terminal, resolve_grant_state}
use sas_core.Renewal.{
  default_grant_duration_sec, renew_pal, is_pal_channel, resolve_pal_license_cap, pal_license_valid,
  compute_renewal,
}

renew_pal_window :
    (wall : ℕ) (status : Option Bool) (cap : Option ℕ) (t : ℕ)
    → (renew_pal wall status cap).new_expire ≡ some t
    → (status ≢ some false)
      × (c : ℕ) × (cap ≡ some c)
      × (wall < t)
      × (t ≤ add_seconds wall default_grant_duration_sec)
      × (t ≤ c)
unfolding renew_pal
renew_pal_window wall (some false) cap t h = ground arith
renew_pal_window wall none none t h = ground arith
renew_pal_window wall (some true) none t h = ground arith
renew_pal_window wall none (some c) t h =
    (ground arith, c, refl, ground arith, ground arith, ground arith)
renew_pal_window wall (some true) (some c) t h =
    (ground arith, c, refl, ground arith, ground arith, ground arith)

renewed_branch :
    (db : Store) (g : Grant) (now t : ℕ)
    → (compute_renewal db g now).new_expire ≡ some t
    → (is_terminal (resolve_grant_state g (trunc_sec now)) ≡ false)
      × (trunc_sec now < trunc_sec g.grant_expire_time)
      × (((is_pal_channel g ≡ false) × (t ≡ add_seconds (trunc_sec now) default_grant_duration_sec))
          ⊎ ((is_pal_channel g ≡ true)
              × ((renew_pal
                    (trunc_sec now)
                    (pal_license_valid db g)
                    (resolve_pal_license_cap db g)).new_expire
                  ≡ some t)))
unfolding compute_renewal
renewed_branch db g now t h = ground arith

-- A renewal that sets an expiration was computed for a grant in no terminal state that had not run
-- out; it lies in the future, at most 900 seconds ahead of the clock, and the grant is a GAA grant or its
-- license is not known to be invalid and has an expiration that it does not pass.
pub compute_renewal_window :
    (db : Store) (g : Grant) (now t : ℕ)
    → (compute_renewal db g now).new_expire ≡ some t
    → (is_terminal (resolve_grant_state g (trunc_sec now)) ≡ false)
      × (trunc_sec now < trunc_sec g.grant_expire_time)
      × (trunc_sec now < t)
      × (t ≤ add_seconds (trunc_sec now) default_grant_duration_sec)
      × ((is_pal_channel g ≡ false)
          ⊎ ((pal_license_valid db g ≢ some false)
              × (c : ℕ) × (resolve_pal_license_cap db g ≡ some c)
              × (t ≤ c)))
compute_renewal_window db g now t h =
    let (live, ahead, branch) = renewed_branch db g now t h in
    elim branch [
      | inl (p, e) ↦ (live, ahead, ground arith, ground arith, inl p)
      | inr (p, e) ↦
          let (valid, c, is_cap, future, near, below) = renew_pal_window _ _ _ t e in
          (live, ahead, future, near, inr (valid, c, is_cap, below))
    ]

whole_pal :
    (n : ℕ) (status : Option Bool) (cap : Option ℕ) (t : ℕ)
    → (renew_pal (trunc_sec n) status cap).new_expire ≡ some t
    → trunc_sec t ≡ t
unfolding renew_pal
whole_pal n (some false) cap t h = ground arith
whole_pal n none none t h = ground arith
whole_pal n (some true) none t h = ground arith
whole_pal n none (some c) t h = ground arith
whole_pal n (some true) (some c) t h = ground arith

-- The new expiration is a whole second.
pub renewal_whole :
    (db : Store) (g : Grant) (now t : ℕ)
    → (compute_renewal db g now).new_expire ≡ some t
    → trunc_sec t ≡ t
renewal_whole db g now t h =
    let (live, ahead, branch) = renewed_branch db g now t h in
    elim branch [ inl (p, e) ↦ omega arith | inr (p, e) ↦ whole_pal now _ _ t e ]
