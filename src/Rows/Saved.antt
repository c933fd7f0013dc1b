-- ===== src/Rows/Saved.antt =====
-- Looking rows up after they were saved or deleted.
use sas_core.Prelude.{
  ℕ, String, Bool, true, false, ◌&&◌, not, ◌≡◌, refl, ap, sym, subst, some-injective, none-ne-some,
  eq_iff, none, some, List, [], ◌∷◌, keep, All, All-mono, suc, length, nat_beq, Bool-cases, inl,
  inr, ◌==◌, string_eq, arith,
}
use sas_core.Records.{Cbsd, Grant}
use sas_core.Auth.{lock_cbsd_row, lock_grant_row}
use sas_core.Rows.{replace_grant, run_batch}

-- Primary keys are distinct.
abbrev pub UniquePk : List Grant → Type 0
UniquePk [] = Unit
UniquePk (g ∷ gs) = All (λ (x : Grant). nat_beq x.pk g.pk ≡ false) gs × UniquePk gs

-- `cbsd_id` is a unique column.
abbrev pub UniqueCbsd : List Cbsd → Type 0
UniqueCbsd [] = Unit
UniqueCbsd (c ∷ cs) = All (λ (x : Cbsd). (x.cbsd_id == c.cbsd_id) ≡ false) cs × UniqueCbsd cs

pub nat_beq_refl : (a : ℕ) → nat_beq a a ≡ true
nat_beq_refl a = ground arith

pub nat_beq_flip : (a b : ℕ) → nat_beq a b ≡ false → nat_beq b a ≡ false
nat_beq_flip a b h = ground arith

-- Saving a row whose key no other row has changes nothing.
pub replace-fresh :
    (gs : List Grant) (g : Grant)
    → All (λ (x : Grant). nat_beq x.pk g.pk ≡ false) gs
    → replace_grant gs g ≡ gs
unfolding replace_grant
replace-fresh [] g h = refl
replace-fresh (x ∷ xs) g h = rw (h.0, replace-fresh xs g h.1) refl

same_key : (a b : String) → (a == b) ≡ true → a ≡ b
same_key a b h = (eq_iff a b).0 h

both : (p q : Bool) → (p && q) ≡ true → (p ≡ true) × (q ≡ true)
both p q h = ground arith

lock_grant-key :
    (gs : List Grant) (gid cid : String) (g : Grant)
    → lock_grant_row gs gid cid ≡ some g
    → (g.grant_id ≡ gid) × (g.cbsd_id ≡ cid)
unfolding lock_grant_row
lock_grant-key [] gid cid g h = ground arith
lock_grant-key (x ∷ xs) gid cid g h = elim (Bool-cases (x.grant_id == gid && x.cbsd_id == cid)) [
  | inl e ↦
      let is_x : x ≡ g = some-injective _ _ (rw e at h) in
      let keys = both (x.grant_id == gid) (x.cbsd_id == cid) e in
      rw (sym is_x) (same_key _ _ keys.0, same_key _ _ keys.1)
  | inr e ↦ lock_grant-key xs gid cid g (rw e at h)
]

-- What holds of all rows holds of the one found.
pub lock_grant-All {ℓ} :
    (P : Grant → Type ℓ) (gs : List Grant) (gid cid : String) (g : Grant)
    → All P gs
    → lock_grant_row gs gid cid ≡ some g
    → P g
unfolding lock_grant_row
lock_grant-All P [] gid cid g a h = absurd (none-ne-some _ h)
lock_grant-All P (x ∷ xs) gid cid g a h =
    elim (Bool-cases (x.grant_id == gid && x.cbsd_id == cid)) [
      | inl e ↦ subst P (some-injective _ _ (rw e at h)) a.0
      | inr e ↦ lock_grant-All P xs gid cid g a.1 (rw e at h)
    ]

-- A row that was found and is saved as it was leaves the table as it was.
pub replace-found :
    (gs : List Grant) (gid cid : String) (g : Grant)
    → UniquePk gs
    → lock_grant_row gs gid cid ≡ some g
    → replace_grant gs g ≡ gs
unfolding lock_grant_row replace_grant
replace-found [] gid cid g u h = refl
replace-found (x ∷ xs) gid cid g u h = elim (Bool-cases (x.grant_id == gid && x.cbsd_id == cid)) [
  | inl e ↦
      let is_x : x ≡ g = some-injective _ _ (rw e at h) in
      rw (sym is_x, nat_beq_refl x.pk, replace-fresh xs x u.0) refl
  | inr e ↦
      let found : lock_grant_row xs gid cid ≡ some g = rw e at h in
      let other = lock_grant-All (λ y. nat_beq y.pk x.pk ≡ false) xs gid cid g u.0 found in
      rw (nat_beq_flip g.pk x.pk other, replace-found xs gid cid g u.1 found) refl
]

-- A row that was found, changed apart from its keys, and saved is found again.
pub lock-replace :
    (gs : List Grant) (gid cid : String) (g g' : Grant)
    → lock_grant_row gs gid cid ≡ some g
    → UniquePk gs
    → g'.pk ≡ g.pk
    → g'.grant_id ≡ g.grant_id
    → g'.cbsd_id ≡ g.cbsd_id
    → lock_grant_row (replace_grant gs g') gid cid ≡ some g'
unfolding lock_grant_row replace_grant
lock-replace [] gid cid g g' h u p q r = ground arith
lock-replace (x ∷ xs) gid cid g g' h u p q r =
    let keys = lock_grant-key (x ∷ xs) gid cid g h in
    elim (Bool-cases (x.grant_id == gid && x.cbsd_id == cid)) [
      | inl e ↦
          let is_x : x ≡ g = some-injective _ _ (rw e at h) in
          rw (p, sym is_x, nat_beq_refl x.pk, q, r, sym is_x, e) refl
      | inr e ↦
          let found : lock_grant_row xs gid cid ≡ some g = rw e at h in
          let other = lock_grant-All (λ y. nat_beq y.pk x.pk ≡ false) xs gid cid g u.0 found in
          let ne : nat_beq x.pk g'.pk ≡ false = rw p (nat_beq_flip g.pk x.pk other) in
          rw (ne, e) (lock-replace xs gid cid g g' found u.1 p q r)
    ]

still-absent :
    (p : Cbsd → Bool) (x : Cbsd) (xs : List Cbsd) (cid : String)
    → (x.cbsd_id == cid) ≡ false
    → lock_cbsd_row (keep p xs) cid ≡ none
    → lock_cbsd_row (keep p (x ∷ xs)) cid ≡ none
unfolding lock_cbsd_row
still-absent p x xs cid e h = elim (Bool-cases (p x)) [ inl t ↦ rw (t, e) h | inr f ↦ rw f h ]

absent-keep :
    (p : Cbsd → Bool) (xs : List Cbsd) (cid : String)
    → All (λ (y : Cbsd). (y.cbsd_id == cid) ≡ false) xs
    → lock_cbsd_row (keep p xs) cid ≡ none
unfolding lock_cbsd_row
absent-keep p [] cid a = refl
absent-keep p (x ∷ xs) cid a = still-absent p x xs cid a.0 (absent-keep p xs cid a.1)

pub All-keep {ℓ κ} :
    {A : Type ℓ} (P : A → Type κ) (p : A → Bool) (xs : List A)
    → ((x : A) → p x ≡ true → P x)
    → All P (keep p xs)
All-keep P p [] f = tt
All-keep P p (x ∷ xs) f = elim (Bool-cases (p x)) [
  | inl t ↦ rw t (f x t, All-keep P p xs f)
  | inr e ↦ rw e (All-keep P p xs f)
]

-- A batch answers every request.
pub length-run_batch {ℓ κ μ} :
    {S : Type ℓ} {Req : Type κ} {Resp : Type μ} (step : S → ℕ → Req → Resp × S) (db : S)
    (reqs : List (ℕ × Req))
    → length (run_batch step db reqs).0 ≡ length reqs
unfolding run_batch
length-run_batch step db [] = refl
length-run_batch step db ((now, req) ∷ rest) =
    ap suc (length-run_batch step (step db now req).1 rest)

-- What every step preserves, a batch preserves.
pub run_batch-Invariant {ℓ κ μ ν} :
    {S : Type ℓ} {Req : Type κ} {Resp : Type μ} (P : S → Type ν) (step : S → ℕ → Req → Resp × S)
    → ((db : S) (now : ℕ) (req : Req) → P db → P (step db now req).1)
    → (db : S) (reqs : List (ℕ × Req)) → P db
    → P (run_batch step db reqs).1
unfolding run_batch
run_batch-Invariant P step keeps db [] p = p
run_batch-Invariant P step keeps db ((now, req) ∷ rest) p =
    run_batch-Invariant P step keeps (step db now req).1 rest (keeps db now req p)

-- A deleted CBSD is not found by its id.
pub lock_cbsd-deleted :
    (cs : List Cbsd) (cid : String) (c : Cbsd)
    → lock_cbsd_row cs cid ≡ some c
    → UniqueCbsd cs
    → lock_cbsd_row (keep (λ (x : Cbsd). not (nat_beq x.pk c.pk)) cs) cid ≡ none
unfolding lock_cbsd_row
lock_cbsd-deleted [] cid c h u = refl
lock_cbsd-deleted (x ∷ xs) cid c h u = elim (Bool-cases (x.cbsd_id == cid)) [
  | inl e ↦
      let is_x : x ≡ c = some-injective _ _ (rw e at h) in
      let same : c.pk ≡ x.pk = ap (λ (y : Cbsd). y.pk) (sym is_x) in
      let dropped : not (nat_beq x.pk c.pk) ≡ false = rw (same, nat_beq_refl x.pk) refl in
      rw dropped (
        absent-keep (λ (y : Cbsd). not (nat_beq y.pk c.pk)) xs cid
          (All-mono _ _ xs (λ y o. rw (sym (same_key x.cbsd_id cid e)) o) u.0))
  | inr e ↦
      still-absent (λ (y : Cbsd). not (nat_beq y.pk c.pk)) x xs cid e
        (lock_cbsd-deleted xs cid c (rw e at h) u.1)
]
