-- ===== src/Registration/Keyed.antt =====
-- models/models.py: the keys of the CBSD table, and its rows as a map from `cbsdId`.
use sas_core.Prelude.{
  ℕ, String, true, false, ◌≡◌, refl, ap, ◌∙◌, sym, subst, some-injective, none-ne-some, some, List,
  [], ◌∷◌, All, All-mono, nat_beq, Bool-cases, inl, inr, ◌⊎◌, ◌==◌, string_eq, arith,
}
use sas_core.Records.{Cbsd}
use sas_core.Auth.{lock_cbsd_row}
use sas_core.Rows.Saved.{UniqueCbsd}
use sas_core.Registration.Table.{replace_cbsd}

-- Primary keys are distinct.
abbrev pub UniqueCbsdPk : List Cbsd → Type 0
UniqueCbsdPk [] = Unit
UniqueCbsdPk (c ∷ cs) = All (λ (x : Cbsd). nat_beq x.pk c.pk ≡ false) cs × UniqueCbsdPk cs

-- Both unique columns.
pub record Keyed (cs : List Cbsd) : Type 0 where
  pub ids : UniqueCbsd cs
  pub pks : UniqueCbsdPk cs

pub nat_beq_refl : (a : ℕ) → nat_beq a a ≡ true
nat_beq_refl a = ground arith

nat_beq_trans : (a b c : ℕ) → nat_beq a b ≡ false → nat_beq b c ≡ true → nat_beq a c ≡ false
nat_beq_trans a b c h k = ground arith

-- What the lookup finds carries the key.
pub lock_cbsd-key :
    (cs : List Cbsd) (cid : String) (c : Cbsd)
    → lock_cbsd_row cs cid ≡ some c
    → (c.cbsd_id == cid) ≡ true
unfolding lock_cbsd_row
lock_cbsd-key [] cid c h = absurd (none-ne-some _ h)
lock_cbsd-key (x ∷ xs) cid c h = elim (Bool-cases (x.cbsd_id == cid)) [
  | inl e ↦ subst (λ (y : Cbsd). (y.cbsd_id == cid) ≡ true) (some-injective _ _ (rw e at h)) e
  | inr e ↦ lock_cbsd-key xs cid c (rw e at h)
]

pub lock_cbsd-All {ℓ} :
    (P : Cbsd → Type ℓ) (cs : List Cbsd) (cid : String) (c : Cbsd)
    → All P cs
    → lock_cbsd_row cs cid ≡ some c
    → P c
unfolding lock_cbsd_row
lock_cbsd-All P [] cid c a h = absurd (none-ne-some _ h)
lock_cbsd-All P (x ∷ xs) cid c a h = elim (Bool-cases (x.cbsd_id == cid)) [
  | inl e ↦ subst P (some-injective _ _ (rw e at h)) a.0
  | inr e ↦ lock_cbsd-All P xs cid c a.1 (rw e at h)
]

-- A row that has the key of the new row has its `cbsdId` too.
abbrev pub SameId : Cbsd → Cbsd → Type 0
SameId c' x = (nat_beq x.pk c'.pk ≡ false) ⊎ (x.cbsd_id ≡ c'.cbsd_id)

other_keys :
    (cs : List Cbsd) (c' : Cbsd)
    → All (λ (x : Cbsd). nat_beq x.pk c'.pk ≡ false) cs
    → All (SameId c') cs
other_keys cs c' a = All-mono _ _ cs (λ x d. inl d) a

pub found-SameId :
    (cs : List Cbsd) (cid : String) (c c' : Cbsd)
    → UniqueCbsdPk cs
    → lock_cbsd_row cs cid ≡ some c
    → c'.pk ≡ c.pk
    → c'.cbsd_id ≡ c.cbsd_id
    → All (SameId c') cs
unfolding lock_cbsd_row
found-SameId [] cid c c' u h p q = tt
found-SameId (x ∷ xs) cid c c' u h p q = elim (Bool-cases (x.cbsd_id == cid)) [
  | inl e ↦
      let is_x : x ≡ c = some-injective _ _ (rw e at h) in
      let pk_x : c'.pk ≡ x.pk = p ∙ ap (λ (y : Cbsd). y.pk) (sym is_x) in
      let id_x : x.cbsd_id ≡ c'.cbsd_id = ap (λ (y : Cbsd). y.cbsd_id) is_x ∙ sym q in
      (inr id_x, other_keys xs c' (All-mono _ _ xs (λ y d. rw pk_x d) u.0))
  | inr e ↦
      let found : lock_cbsd_row xs cid ≡ some c = rw e at h in
      let other = lock_cbsd-All (λ (y : Cbsd). nat_beq y.pk x.pk ≡ false) xs cid c u.0 found in
      (inl (differs x.pk c'.pk c.pk other p), found-SameId xs cid c c' u.1 found p q)
]
  where
    differs : (a b d : ℕ) → nat_beq d a ≡ false → b ≡ d → nat_beq a b ≡ false
    differs a b d h e = ground arith

-- What all rows satisfy and the new row satisfies in place of one of them, the new table satisfies.
replace-All {ℓ} :
    (P : Cbsd → Type ℓ) (cs : List Cbsd) (c' : Cbsd)
    → ((x : Cbsd) → P x → nat_beq x.pk c'.pk ≡ true → P c')
    → All P cs
    → All P (replace_cbsd cs c')
unfolding replace_cbsd
replace-All P [] c' swap a = tt
replace-All P (x ∷ xs) c' swap a = elim (Bool-cases (nat_beq x.pk c'.pk)) [
  | inl e ↦ rw e (swap x a.0 e, replace-All P xs c' swap a.1)
  | inr e ↦ rw e (a.0, replace-All P xs c' swap a.1)
]

both-All {ℓ κ} :
    (P : Cbsd → Type ℓ) (Q : Cbsd → Type κ) (cs : List Cbsd)
    → All P cs
    → All Q cs
    → All (λ x. P x × Q x) cs
both-All P Q [] p q = tt
both-All P Q (x ∷ xs) p q = ((p.0, q.0), both-All P Q xs p.1 q.1)

abbrev OtherId : String → Cbsd → Type 0
OtherId cid x = (x.cbsd_id == cid) ≡ false

replace-OtherId :
    (xs : List Cbsd) (c' : Cbsd) (cid : String)
    → All (OtherId cid) xs
    → All (SameId c') xs
    → All (OtherId cid) (replace_cbsd xs c')
replace-OtherId xs c' cid a s =
    All-mono (λ x. OtherId cid x × SameId c' x × SameId c' c') (OtherId cid) _ (λ x h. h.0)
      (replace-All (λ x. OtherId cid x × SameId c' x × SameId c' c') xs c'
        (λ x h e. (moved x h.0 h.1 e, inr refl, inr refl))
        (All-mono _ _ xs (λ x h. (h.0, h.1, inr refl)) (both-All _ _ xs a s)))
  where
    moved : (x : Cbsd) → OtherId cid x → SameId c' x → nat_beq x.pk c'.pk ≡ true → OtherId cid c'
    moved x o (inl d) e = absurd (ground arith)
    moved x o (inr same) e = subst (λ (s : String). (s == cid) ≡ false) same o

pub replace-UniqueCbsd :
    (cs : List Cbsd) (c' : Cbsd)
    → All (SameId c') cs
    → UniqueCbsd cs
    → UniqueCbsd (replace_cbsd cs c')
unfolding replace_cbsd
replace-UniqueCbsd [] c' s u = tt
replace-UniqueCbsd (x ∷ xs) c' s u = elim (Bool-cases (nat_beq x.pk c'.pk)) [
  | inl e ↦ rw e (
    subst (λ (i : String). All (OtherId i) (replace_cbsd xs c')) (same x s.0 e)
        (replace-OtherId xs c' x.cbsd_id u.0 s.1),
    replace-UniqueCbsd xs c' s.1 u.1,
  )
  | inr e ↦ rw e (replace-OtherId xs c' x.cbsd_id u.0 s.1, replace-UniqueCbsd xs c' s.1 u.1)
]
  where
    same : (y : Cbsd) → SameId c' y → nat_beq y.pk c'.pk ≡ true → y.cbsd_id ≡ c'.cbsd_id
    same y (inl d) e = absurd (ground arith)
    same y (inr i) e = i

pub replace-UniqueCbsdPk :
    (cs : List Cbsd) (c' : Cbsd) → UniqueCbsdPk cs → UniqueCbsdPk (replace_cbsd cs c')
unfolding replace_cbsd
replace-UniqueCbsdPk [] c' u = tt
replace-UniqueCbsdPk (x ∷ xs) c' u = elim (Bool-cases (nat_beq x.pk c'.pk)) [
  | inl e ↦ rw e (
    replace-All (λ y. nat_beq y.pk c'.pk ≡ false) xs c' (λ y d f. absurd (ground arith))
        (All-mono _ _ xs (λ y d. nat_beq_trans y.pk x.pk c'.pk d e) u.0),
    replace-UniqueCbsdPk xs c' u.1,
  )
  | inr e ↦ rw e (
    replace-All (λ y. nat_beq y.pk x.pk ≡ false) xs c' (λ y d f. moved y.pk c'.pk x.pk f d) u.0,
    replace-UniqueCbsdPk xs c' u.1,
  )
]
  where
    moved : (a b d : ℕ) → nat_beq a b ≡ true → nat_beq a d ≡ false → nat_beq b d ≡ false
    moved a b d h k = ground arith
