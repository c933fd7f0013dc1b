-- ===== src/Cpas/Merged.antt =====
-- services/mcp_protection.py: termination takes precedence in the merge, whatever the order.
use sas_core.Prelude.{
  ℕ, Bool, true, false, ◌&&◌, ◌||◌, not, ◌≡◌, refl, sym, ◌∙◌, ap, Option, none, some, List, [], ◌∷◌,
  ◌++◌, map, any, All, ap₂, nat_beq, ◌==◌, string_eq, eq_iff, arith, Bool-cases, inl, inr,
}
use sas_core.Cpas.Decisions.{
  CpasDecision, Merged, choose, consider_pk, consider, consider_all, merge_constraint_decisions,
}

abbrev pub is_terminate : CpasDecision → Bool
is_terminate d = d.action == "terminate"

-- The decision is about the grant with this primary key.
abbrev pub about : ℕ → Option ℕ → Bool
about pk none = false
about pk (some k) = nat_beq k pk

-- Some decision of a list terminates the grant.
abbrev pub terminating : ℕ → CpasDecision → Bool
terminating pk d = about pk d.grant_pk && is_terminate d

-- Keyed decisions say under their key what they are about.
ends : ℕ → Merged → Bool
ends pk m = any (λ (e : ℕ × CpasDecision). nat_beq e.0 pk && is_terminate e.1) m

choose_terminates :
    (e d : CpasDecision) → is_terminate (choose e d) ≡ (is_terminate e || is_terminate d)
unfolding choose
choose_terminates e d = ground (arith, eq_iff d.action "terminate")

ends-consider_pk :
    (m : Merged) (pk k : ℕ) (d : CpasDecision)
    → ends pk (consider_pk m k d) ≡ (ends pk m || (nat_beq k pk && is_terminate d))
unfolding ends consider_pk
ends-consider_pk [] pk k d = ground arith
ends-consider_pk ((j, e) ∷ rest) pk k d =
    ground (arith, choose_terminates e d, ends-consider_pk rest pk k d)

-- Every decision stands under its own key.
abbrev OwnKey : ℕ × CpasDecision → Type 0
OwnKey e = e.1.grant_pk ≡ some e.0

choose-OwnKey :
    (k j : ℕ) (e d : CpasDecision)
    → nat_beq j k ≡ true
    → e.grant_pk ≡ some j
    → d.grant_pk ≡ some k
    → (choose e d).grant_pk ≡ some j
unfolding choose
choose-OwnKey k j e d same p q =
    let q' : d.grant_pk ≡ some j = q ∙ ap some (flip k j same) in
    elim (Bool-cases (d.action == "terminate")) [
      | inl t ↦ rw t q'
      | inr f ↦ elim (Bool-cases (not (e.action == "terminate") && d.action == "reduce_power")) [
        | inl t ↦ rw (f, t) q'
        | inr g ↦ rw (f, g) p
      ]
    ]
  where
    flip : (a b : ℕ) → nat_beq b a ≡ true → a ≡ b
    flip a b h = ground arith

consider_pk-OwnKey :
    (m : Merged) (k : ℕ) (d : CpasDecision)
    → All OwnKey m
    → d.grant_pk ≡ some k
    → All OwnKey (consider_pk m k d)
unfolding consider_pk
consider_pk-OwnKey [] k d a q = (q, tt)
consider_pk-OwnKey ((j, e) ∷ rest) k d a q = elim (Bool-cases (nat_beq j k)) [
  | inl t ↦ rw t (choose-OwnKey k j e d t a.0 q, a.1)
  | inr f ↦ rw f (a.0, consider_pk-OwnKey rest k d a.1 q)
]

consider-OwnKey :
    (m : Merged) (o : Option ℕ) (d : CpasDecision)
    → All OwnKey m
    → d.grant_pk ≡ o
    → All OwnKey (consider m o d)
unfolding consider
consider-OwnKey m none d a q = a
consider-OwnKey m (some k) d a q = consider_pk-OwnKey m k d a q

All-OwnKey : (m : Merged) (ds : List CpasDecision) → All OwnKey m → All OwnKey (consider_all m ds)
unfolding consider_all
All-OwnKey m [] a = a
All-OwnKey m (d ∷ ds) a =
    All-OwnKey (consider m d.grant_pk d) ds (consider-OwnKey m d.grant_pk d a refl)

ends-consider :
    (m : Merged) (pk : ℕ) (o : Option ℕ) (d : CpasDecision)
    → ends pk (consider m o d) ≡ (ends pk m || (about pk o && is_terminate d))
unfolding consider
ends-consider m pk none d = ground arith
ends-consider m pk (some k) d = ends-consider_pk m pk k d

or_assoc : (a b c : Bool) → ((a || b) || c) ≡ (a || (b || c))
or_assoc a b c = ground arith

ends-all :
    (m : Merged) (ds : List CpasDecision) (pk : ℕ)
    → ends pk (consider_all m ds) ≡ (ends pk m || any (terminating pk) ds)
unfolding consider_all
ends-all m [] pk = ground arith
ends-all m (d ∷ ds) pk =
    ends-all (consider m d.grant_pk d) ds pk
    ∙ ap (λ b. b || any (terminating pk) ds) (ends-consider m pk d.grant_pk d)
    ∙ or_assoc (ends pk m) (about pk d.grant_pk && is_terminate d) (any (terminating pk) ds)

-- Under their own keys, the merged decisions say the same as the keyed ones.
ends-values :
    (m : Merged) (pk : ℕ)
    → All OwnKey m
    → any (terminating pk) (map (λ (e : ℕ × CpasDecision). e.1) m) ≡ ends pk m
unfolding ends
ends-values [] pk a = refl
ends-values ((k, d) ∷ rest) pk a =
    ap₂ (λ x y. x || y) (ap (λ (o : Option ℕ). about pk o && is_terminate d) a.0)
      (ends-values rest pk a.1)

any-append :
    (p : CpasDecision → Bool) (xs ys : List CpasDecision)
    → any p (xs ++ ys) ≡ (any p xs || any p ys)
any-append p [] ys = refl
any-append p (x ∷ xs) ys =
    ap (λ b. p x || b) (any-append p xs ys) ∙ sym (or_assoc (p x) (any p xs) (any p ys))

-- The merge terminates a grant exactly when a decision of the peers, of IAP or of the DPAs terminates
-- it, whatever the other decisions on the grant say and wherever they stand.
pub merge-terminating :
    (peer iap dpa : List CpasDecision) (pk : ℕ)
    → any (terminating pk) (merge_constraint_decisions peer iap dpa)
      ≡ any (terminating pk) (peer ++ (iap ++ dpa))
unfolding merge_constraint_decisions ends
merge-terminating peer iap dpa pk =
    let first = consider_all [] peer in
    let second = consider_all first iap in
    ends-values (consider_all second dpa) pk
      (All-OwnKey second dpa (All-OwnKey first iap (All-OwnKey [] peer tt)))
    ∙ ends-all second dpa pk
    ∙ ap (λ b. b || any (terminating pk) dpa)
        (ends-all first iap pk ∙ ap (λ b. b || any (terminating pk) iap) (ends-all [] peer pk))
    ∙ or_assoc (any (terminating pk) peer) (any (terminating pk) iap) (any (terminating pk) dpa)
    ∙ sym (
        any-append (terminating pk) peer (iap ++ dpa)
        ∙ ap (λ b. any (terminating pk) peer || b) (any-append (terminating pk) iap dpa))
