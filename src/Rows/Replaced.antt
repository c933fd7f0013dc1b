-- ===== src/Rows/Replaced.antt =====
-- Saving a row that was found changes that row of the table and no other.
use sas_core.Prelude.{
  ℕ, String, true, false, ◌&&◌, ◌≡◌, refl, sym, ◌∙◌, ap, subst, some-injective, none-ne-some, some,
  List, [], All, ◌∷◌, nat_beq, Bool-cases, inl, inr, ◌==◌, string_eq, arith,
}
use sas_core.Records.{Grant}
use sas_core.Auth.{lock_grant_row}
use sas_core.Rows.{replace_grant}
use sas_core.Rows.Saved.{UniquePk, nat_beq_flip, lock_grant-All, replace-fresh}

-- The second table is the first, but for `new` in the place of `old`.
pub data Replaced (old new : Grant) : List Grant → List Grant → Type 0 where
  here : {gs : List Grant} → Replaced old new (old ∷ gs) (new ∷ gs)
  there :
      {x : Grant} {gs hs : List Grant} → Replaced old new gs hs → Replaced old new (x ∷ gs) (x ∷ hs)

replace_other :
    (xs : List Grant) (x g' : Grant)
    → nat_beq x.pk g'.pk ≡ false
    → replace_grant (x ∷ xs) g' ≡ x ∷ replace_grant xs g'
unfolding replace_grant
replace_other xs x g' h = rw h refl

same_pk : (a b : ℕ) → a ≡ b → nat_beq b a ≡ true
same_pk a b h = ground arith

replace_first :
    (xs : List Grant) (x g' : Grant)
    → g'.pk ≡ x.pk
    → UniquePk (x ∷ xs)
    → replace_grant (x ∷ xs) g' ≡ g' ∷ xs
unfolding replace_grant
replace_first xs x g' p u =
    let rest =
      replace-fresh xs g'
        (subst (λ (k : ℕ). All (λ (y : Grant). nat_beq y.pk k ≡ false) xs) (sym p) u.0) in
    rw (same_pk g'.pk x.pk p) (ap (λ (ys : List Grant). g' ∷ ys) rest)

pub replace-Replaced :
    (gs : List Grant) (gid cid : String) (g g' : Grant)
    → lock_grant_row gs gid cid ≡ some g
    → UniquePk gs
    → g'.pk ≡ g.pk
    → Replaced g g' gs (replace_grant gs g')
unfolding lock_grant_row
replace-Replaced [] gid cid g g' h u p = absurd (none-ne-some _ h)
replace-Replaced (x ∷ xs) gid cid g g' h u p =
    elim (Bool-cases (x.grant_id == gid && x.cbsd_id == cid)) [
      | inl e ↦
          let is_x : x ≡ g = some-injective _ _ (rw e at h) in
          subst (λ (y : Grant). Replaced y g' (x ∷ xs) (replace_grant (x ∷ xs) g')) is_x
            (subst (Replaced x g' (x ∷ xs))
              (sym (replace_first xs x g' (p ∙ ap (λ (y : Grant). y.pk) (sym is_x)) u)) here)
      | inr e ↦
          let found : lock_grant_row xs gid cid ≡ some g = rw e at h in
          let other = lock_grant-All (λ y. nat_beq y.pk x.pk ≡ false) xs gid cid g u.0 found in
          let ne : nat_beq x.pk g'.pk ≡ false = rw p (nat_beq_flip g.pk x.pk other) in
          subst (Replaced g g' (x ∷ xs)) (sym (replace_other xs x g' ne))
            (there (replace-Replaced xs gid cid g g' found u.1 p))
    ]
