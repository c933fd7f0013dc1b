-- ===== src/Cpas/Found.antt =====
-- services/cpas_service.py: the row that a decision is about stands in the table.
use sas_core.Prelude.{
  ℕ, String, false, ◌&&◌, ◌≡◌, refl, subst, Option, none, some, some-injective, none-ne-some, List,
  [], ◌∷◌, All, All-mono, nat_beq, Bool-cases, inl, inr, ◌==◌, string_eq, arith,
}
use sas_core.Records.{Grant}
use sas_core.Auth.{lock_grant_row}
use sas_core.Rows.Saved.{UniquePk}
use sas_core.Cpas.Decisions.{CpasDecision}
use sas_core.Cpas.Apply.{find_grant_pk, row_by_pk, find_decided}
use sas_core.Cpas.Lowered.{IsTamer, Tames}

-- A row of the table.
pub data IsIn (g : Grant) : List Grant → Type 0 where
  here : {gs : List Grant} → IsIn g (g ∷ gs)
  there : {x : Grant} {gs : List Grant} → IsIn g gs → IsIn g (x ∷ gs)

IsIn-All {ℓ} : {g : Grant} {gs : List Grant} (P : Grant → Type ℓ) → IsIn g gs → All P gs → P g
IsIn-All P here a = a.0
IsIn-All P (there i) a = IsIn-All P i a.1

find_pk-IsIn : (gs : List Grant) (pk : ℕ) (g : Grant) → find_grant_pk gs pk ≡ some g → IsIn g gs
unfolding find_grant_pk
find_pk-IsIn [] pk g h = absurd (none-ne-some _ h)
find_pk-IsIn (x ∷ xs) pk g h = elim (Bool-cases (nat_beq x.pk pk)) [
  | inl t ↦ subst (λ (y : Grant). IsIn y (x ∷ xs)) (some-injective x g (rw t at h)) here
  | inr f ↦ there (find_pk-IsIn xs pk g (rw f at h))
]

lock_grant-IsIn :
    (gs : List Grant) (gid cid : String) (g : Grant)
    → lock_grant_row gs gid cid ≡ some g
    → IsIn g gs
unfolding lock_grant_row
lock_grant-IsIn [] gid cid g h = absurd (none-ne-some _ h)
lock_grant-IsIn (x ∷ xs) gid cid g h = elim (Bool-cases (x.grant_id == gid && x.cbsd_id == cid)) [
  | inl t ↦ subst (λ (y : Grant). IsIn y (x ∷ xs)) (some-injective x g (rw t at h)) here
  | inr f ↦ there (lock_grant-IsIn xs gid cid g (rw f at h))
]

row_by_pk-IsIn :
    (gs : List Grant) (pk : ℕ) (o : Option Grant) (g : Grant)
    → ((x : Grant) → o ≡ some x → IsIn x gs)
    → row_by_pk gs pk o ≡ some g
    → IsIn g gs
unfolding row_by_pk
row_by_pk-IsIn gs pk none g k h = find_pk-IsIn gs pk g h
row_by_pk-IsIn gs pk (some x) g k h = elim (Bool-cases (nat_beq x.pk pk)) [
  | inl t ↦ subst (λ (y : Grant). IsIn y gs) (some-injective x g (rw t at h)) (k x refl)
  | inr f ↦ find_pk-IsIn gs pk g (rw f at h)
]

pub found-IsIn :
    (gs : List Grant) (pk : ℕ) (d : CpasDecision) (g : Grant)
    → find_decided gs pk d ≡ some g
    → IsIn g gs
unfolding find_decided
found-IsIn gs pk d g h =
    row_by_pk-IsIn gs pk (lock_grant_row gs d.grant_id d.cbsd_id) g
      (λ x e. lock_grant-IsIn gs d.grant_id d.cbsd_id x e) h

other_key : (a b c : ℕ) → nat_beq a b ≡ false → c ≡ a → nat_beq b c ≡ false
other_key a b c h e = ground arith

same_key : (a b c : ℕ) → nat_beq a b ≡ false → c ≡ b → nat_beq a c ≡ false
same_key a b c h e = ground arith

-- A row that tames one row of a table with distinct keys tames all that have its key.
pub tames :
    (at : ℕ) {g : Grant} {gs : List Grant} (g' : Grant)
    → IsIn g gs
    → UniquePk gs
    → IsTamer at g' g
    → All (Tames at g') gs
tames at {g} g' (here {gs = xs}) u h =
    (inr h, All-mono _ _ xs (λ y d. inl (same_key y.pk g.pk g'.pk d h.keys.0)) u.0)
tames at {g} g' (there {x = x} {gs = xs} i) u h =
    let apart = IsIn-All (λ (y : Grant). nat_beq y.pk x.pk ≡ false) i u.0 in
    (inl (other_key g.pk x.pk g'.pk apart h.keys.0), tames at g' i u.1 h)
