-- ===== src/Registration/Directory.antt =====
-- models/models.py: the CBSD table as a map from `cbsdId` to rows, under a write and an insertion.
use sas_core.Prelude.{
  ℕ, String, Bool, true, false, ◌≡◌, refl, ap, ◌∙◌, sym, some-injective, none-ne-some, eq_iff,
  Option, none, some, List, [], ◌∷◌, ◌++◌, All, All-mono, nat_beq, Bool-cases, inl, inr,
  if◌then◌else◌, ◌==◌, string_eq, arith,
}
use sas_core.Records.{Cbsd}
use sas_core.Auth.{lock_cbsd_row}
use sas_core.Registration.Table.{replace_cbsd}
use sas_core.Registration.Keyed.{UniqueCbsdPk, nat_beq_refl, lock_cbsd-All}

differs : (a b d : String) → (a == b) ≡ false → (a == d) ≡ true → (b == d) ≡ false
differs a b d h k = ground (arith, eq_iff a b, eq_iff b d, eq_iff a d)

-- The lookup in a table without the key that is replaced.
lock-replace_other :
    (cs : List Cbsd) (c' : Cbsd) (k : String)
    → All (λ (x : Cbsd). nat_beq x.pk c'.pk ≡ false) cs
    → lock_cbsd_row (replace_cbsd cs c') k ≡ lock_cbsd_row cs k
unfolding lock_cbsd_row replace_cbsd
lock-replace_other [] c' k a = refl
lock-replace_other (x ∷ xs) c' k a = rw (a.0, lock-replace_other xs c' k a.1) refl

twice :
    (b : Bool) (v w r : Option Cbsd) → (if b then v else r) ≡ (if b then v else if b then w else r)
twice true v w r = refl
twice false v w r = refl

here-lock :
    (a b d k : String) (v w r r' : Option Cbsd)
    → a ≡ d
    → b ≡ d
    → r ≡ r'
    → (if a == k then v else r) ≡ (if d == k then v else if b == k then w else r')
here-lock a b d k v w r r' p q e = rw (p, q, e) (twice (d == k) v w r')

-- A saved row is found under its id, and nothing else changes.
pub lock-replace_cbsd :
    (cs : List Cbsd) (cid : String) (c c' : Cbsd) (k : String)
    → lock_cbsd_row cs cid ≡ some c
    → UniqueCbsdPk cs
    → c'.pk ≡ c.pk
    → c'.cbsd_id ≡ cid
    → lock_cbsd_row (replace_cbsd cs c') k ≡ (if cid == k then some c' else lock_cbsd_row cs k)
unfolding lock_cbsd_row replace_cbsd
lock-replace_cbsd [] cid c c' k h u p q = absurd (none-ne-some _ h)
lock-replace_cbsd (x ∷ xs) cid c c' k h u p q = elim (Bool-cases (x.cbsd_id == cid)) [
  | inl e ↦
      let is_x : x ≡ c = some-injective _ _ (rw e at h) in
      let pk_x : x.pk ≡ c'.pk = ap (λ (y : Cbsd). y.pk) is_x ∙ sym p in
      let hit : nat_beq x.pk c'.pk ≡ true = rw pk_x (nat_beq_refl c'.pk) in
      let same : x.cbsd_id ≡ cid = (eq_iff x.cbsd_id cid).0 e in
      let rest = lock-replace_other xs c' k (All-mono _ _ xs (λ (y : Cbsd) d. rw (← pk_x) d) u.0) in
      rw hit (here-lock c'.cbsd_id x.cbsd_id cid k (some c') (some x) _ _ q same rest)
  | inr e ↦
      let found : lock_cbsd_row xs cid ≡ some c = rw e at h in
      let other = lock_cbsd-All (λ (y : Cbsd). nat_beq y.pk x.pk ≡ false) xs cid c u.0 found in
      let miss : nat_beq x.pk c'.pk ≡ false = flipped x.pk c'.pk c.pk other p in
      let rest = lock-replace_cbsd xs cid c c' k found u.1 p q in
      elim (Bool-cases (x.cbsd_id == k)) [
        | inl f ↦
            let apart : (cid == k) ≡ false = differs x.cbsd_id cid k e f in rw (miss, f, apart) refl
        | inr f ↦ rw (miss, f) rest
      ]
]
  where
    flipped : (a b d : ℕ) → nat_beq d a ≡ false → b ≡ d → nat_beq a b ≡ false
    flipped a b d h e = ground arith

pub lock-insert_cbsd :
    (cs : List Cbsd) (cid : String) (c : Cbsd) (k : String)
    → lock_cbsd_row cs cid ≡ none
    → c.cbsd_id ≡ cid
    → lock_cbsd_row (cs ++ (c ∷ [])) k ≡ (if cid == k then some c else lock_cbsd_row cs k)
unfolding lock_cbsd_row
lock-insert_cbsd [] cid c k h q = rw q refl
lock-insert_cbsd (x ∷ xs) cid c k h q = elim (Bool-cases (x.cbsd_id == cid)) [
  | inl e ↦ absurd (none-ne-some _ (sym (rw e at h)))
  | inr e ↦
      let rest = lock-insert_cbsd xs cid c k (rw e at h) q in
      elim (Bool-cases (x.cbsd_id == k)) [
        | inl f ↦ rw (f, differs x.cbsd_id cid k e f) refl
        | inr f ↦ rw f rest
      ]
]
