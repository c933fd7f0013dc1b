-- ===== src/Cpas/Lowered.antt =====
-- services/cpas_service.py: a grant that CPAS has touched, compared with what it was.
use sas_core.Prelude.{
  ℕ, Bool, true, false, ◌≡◌, refl, sym, ◌∙◌, subst, Option, none, some, List, [], ◌∷◌, All, nat_beq,
  Bool-cases, inl, inr, ◌⊎◌, arith,
}
use sas_core.Prelude.Int.{ℤ, ◌≤ℤ◌}
use sas_core.Records.{Grant}
use sas_core.Lifecycle.{is_live, resolve_grant_state}
use sas_core.Lifecycle.Applied.{SameKeys}
use sas_core.Rows.{replace_grant}
use sas_core.Rows.Saved.{UniquePk}

-- A power that is no higher than another; no power is no limit.
pub data NoHigher : Option ℤ → Option ℤ → Type 0 where
  unlimited : (p : Option ℤ) → NoHigher p none
  lower : (a b : ℤ) → a ≤ℤ b → NoHigher (some a) (some b)

pub NoHigher-refl : (p : Option ℤ) → NoHigher p p
NoHigher-refl none = unlimited none
NoHigher-refl (some a) = lower a a (ground arith)

le-trans : (a b c : ℤ) → a ≤ℤ b → b ≤ℤ c → a ≤ℤ c
le-trans a b c h k = omega arith

NoHigher-trans : {p q r : Option ℤ} → NoHigher p q → NoHigher q r → NoHigher p r
NoHigher-trans h (unlimited q) = unlimited _
NoHigher-trans (lower a b h) (lower _ c k) = lower a c (le-trans a b c h k)

module _ (at : ℕ) where
  -- `g'` may stand where `g` stood: it has its keys, its spectrum and its end; its power is no higher;
  -- it is live at the time only if `g` is; and a grant that had ended is as it was.
  pub record IsTamer (g' g : Grant) : Type 0 where
    pub keys : SameKeys g' g
    pub low : g'.low_frequency ≡ g.low_frequency
    pub high : g'.high_frequency ≡ g.high_frequency
    pub until : g'.grant_expire_time ≡ g.grant_expire_time
    pub power : NoHigher g'.max_eirp g.max_eirp
    pub alive :
        (is_live (resolve_grant_state g' at) ≡ false) ⊎ (is_live (resolve_grant_state g at) ≡ true)
    pub ended : (g.terminated ≡ false) ⊎ (g' ≡ g)

  pub live_or_not : (b : Bool) → (b ≡ false) ⊎ (b ≡ true)
  live_or_not true = inr refl
  live_or_not false = inl refl

  pub IsTamer-refl : (g : Grant) → IsTamer g g
  IsTamer-refl g = record {
    keys = (refl, refl, refl, refl);
    low = refl;
    high = refl;
    until = refl;
    power = NoHigher-refl g.max_eirp;
    alive = live_or_not (is_live (resolve_grant_state g at));
    ended = inr refl;
  }

  chain :
      (a b c : Bool)
      → (a ≡ false) ⊎ (b ≡ true)
      → (b ≡ false) ⊎ (c ≡ true)
      → (a ≡ false) ⊎ (c ≡ true)
  chain a b c h k = ground arith

  stays :
      (x y z : Grant)
      → (y.terminated ≡ false) ⊎ (x ≡ y)
      → (z.terminated ≡ false) ⊎ (y ≡ z)
      → (z.terminated ≡ false) ⊎ (x ≡ z)
  stays x y z h (inl k) = inl k
  stays x y z (inr h) (inr k) = inr (h ∙ k)
  stays x y z (inl h) (inr k) = inl (subst (λ (w : Grant). w.terminated ≡ false) k h)

  pub IsTamer-trans : {x y z : Grant} → IsTamer x y → IsTamer y z → IsTamer x z
  IsTamer-trans {x} {y} {z} h k =
      let (p, q, r, s) = h.keys in
      let (p', q', r', s') = k.keys in
      record {
        keys = (p ∙ p', q ∙ q', r ∙ r', s ∙ s');
        low = h.low ∙ k.low;
        high = h.high ∙ k.high;
        until = h.until ∙ k.until;
        power = NoHigher-trans h.power k.power;
        alive = chain _ _ _ h.alive k.alive;
        ended = stays x y z h.ended k.ended;
      }

  -- Row by row.
  pub data AllTamer : List Grant → List Grant → Type 0 where
    done : AllTamer [] []
    next :
        {g' g : Grant} {gs' gs : List Grant}
        → IsTamer g' g
        → AllTamer gs' gs
        → AllTamer (g' ∷ gs') (g ∷ gs)

  pub AllTamer-refl : (gs : List Grant) → AllTamer gs gs
  AllTamer-refl [] = done
  AllTamer-refl (g ∷ gs) = next (IsTamer-refl g) (AllTamer-refl gs)

  pub AllTamer-trans : {xs ys zs : List Grant} → AllTamer xs ys → AllTamer ys zs → AllTamer xs zs
  AllTamer-trans done done = done
  AllTamer-trans (next h hs) (next k ks) = next (IsTamer-trans h k) (AllTamer-trans hs ks)

  -- The keys are those of before.
  same-pk :
      {gs' gs : List Grant} (pk : ℕ)
      → AllTamer gs' gs
      → All (λ (x : Grant). nat_beq x.pk pk ≡ false) gs
      → All (λ (x : Grant). nat_beq x.pk pk ≡ false) gs'
  same-pk pk done a = tt
  same-pk pk (next h hs) a = (rw h.keys.0 a.0, same-pk pk hs a.1)

  pub AllTamer-UniquePk : {gs' gs : List Grant} → AllTamer gs' gs → UniquePk gs → UniquePk gs'
  AllTamer-UniquePk done u = tt
  AllTamer-UniquePk (next {gs' = ys} h hs) u = (
    subst (λ k. All (λ (x : Grant). nat_beq x.pk k ≡ false) ys) (sym h.keys.0) (same-pk _ hs u.0),
    AllTamer-UniquePk hs u.1,
  )

  -- A row with the key of the new row is tamed by it.
  abbrev pub Tames : Grant → Grant → Type 0
  Tames g' x = (nat_beq x.pk g'.pk ≡ false) ⊎ IsTamer g' x

  tamed : (g' x : Grant) → Tames g' x → nat_beq x.pk g'.pk ≡ true → IsTamer g' x
  tamed g' x (inl f) t = absurd (ground arith)
  tamed g' x (inr h) t = h

  pub replace-AllTamer :
      (gs : List Grant) (g' : Grant) → All (Tames g') gs → AllTamer (replace_grant gs g') gs
  unfolding replace_grant
  replace-AllTamer [] g' a = done
  replace-AllTamer (x ∷ xs) g' a = elim (Bool-cases (nat_beq x.pk g'.pk)) [
    | inl t ↦ rw t (next (tamed g' x a.0 t) (replace-AllTamer xs g' a.1))
    | inr f ↦ rw f (next (IsTamer-refl x) (replace-AllTamer xs g' a.1))
  ]
