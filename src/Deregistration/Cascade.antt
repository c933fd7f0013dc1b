-- ===== src/Deregistration/Cascade.antt =====
-- services/deregistration_service.py: the rows that are left when a CBSD leaves.
use sas_core.Prelude.{
  ℕ, String, true, false, not, ◌≡◌, refl, sym, ◌∙◌, ap, subst, List, [], ◌∷◌, map, keep, nat_beq,
  Bool-cases, inl, inr, ◌⊎◌, ◌==◌, string_eq, eq_iff,
}
use sas_core.Records.{Cbsd, Grant}
use sas_core.Store.{Store}
use sas_core.Lifecycle.{is_live, resolve_grant_state, terminate}
use sas_core.Lifecycle.Applied.{SameKeys, event-keys}
use sas_core.Registration.Quiet.{event_quiet}
use sas_core.Rows.{delete_cbsd}
use sas_core.Deregistration.{terminate_grant, terminate_grants}

-- The grants after a CBSD with the key `pk` and the id `cid` has left: those that refer to its row are
-- gone; of the others, one that carries its id is in no live state (or has no id of its own), under its
-- own keys, and every one else is as it was.
pub data Cascaded (pk : ℕ) (cid : String) (now : ℕ) : List Grant → List Grant → Type 0 where
  done : Cascaded pk cid now [] []
  gone :
      {g : Grant} {gs hs : List Grant}
      → nat_beq g.cbsd_pk pk ≡ true
      → Cascaded pk cid now gs hs
      → Cascaded pk cid now (g ∷ gs) hs
  kept :
      {g : Grant} {gs hs : List Grant}
      → nat_beq g.cbsd_pk pk ≡ false
      → (g.cbsd_id == cid) ≡ false
      → Cascaded pk cid now gs hs
      → Cascaded pk cid now (g ∷ gs) (g ∷ hs)
  ended :
      {g h : Grant} {gs hs : List Grant}
      → nat_beq g.cbsd_pk pk ≡ false
      → (g.cbsd_id == cid) ≡ true
      → SameKeys h g
      → (is_live (resolve_grant_state h now) ≡ false) ⊎ ((g.grant_id == "") ≡ true)
      → Cascaded pk cid now gs hs
      → Cascaded pk cid now (g ∷ gs) (h ∷ hs)

-- The CBSDs: the row with the key is gone, and every other is as it was.
pub data Removed (pk : ℕ) : List Cbsd → List Cbsd → Type 0 where
  done : Removed pk [] []
  gone :
      {c : Cbsd} {cs ds : List Cbsd}
      → nat_beq c.pk pk ≡ true
      → Removed pk cs ds
      → Removed pk (c ∷ cs) ds
  kept :
      {c : Cbsd} {cs ds : List Cbsd}
      → nat_beq c.pk pk ≡ false
      → Removed pk cs ds
      → Removed pk (c ∷ cs) (c ∷ ds)

keep-Removed :
    (pk : ℕ) (cs : List Cbsd) → Removed pk cs (keep (λ (x : Cbsd). not (nat_beq x.pk pk)) cs)
keep-Removed pk [] = Removed.done
keep-Removed pk (c ∷ cs) = elim (Bool-cases (nat_beq c.pk pk)) [
  | inl e ↦ rw e (Removed.gone e (keep-Removed pk cs))
  | inr e ↦ rw e (Removed.kept e (keep-Removed pk cs))
]

terminate-key :
    (cid : String) (now : ℕ) (g : Grant) → (terminate_grant cid now g).cbsd_pk ≡ g.cbsd_pk
unfolding terminate_grant
terminate-key cid now g = elim (Bool-cases (g.cbsd_id == cid)) [
  | inl e ↦ rw e (event-keys g terminate _ now).3
  | inr e ↦ rw e refl
]

row-Cascaded :
    (pk : ℕ) (cid : String) (now : ℕ) (g : Grant) (gs hs : List Grant)
    → (cid == "") ≡ false
    → nat_beq g.cbsd_pk pk ≡ false
    → Cascaded pk cid now gs hs
    → Cascaded pk cid now (g ∷ gs) (terminate_grant cid now g ∷ hs)
unfolding terminate_grant
row-Cascaded pk cid now g gs hs named e rest = elim (Bool-cases (g.cbsd_id == cid)) [
  | inr other ↦ rw other (Cascaded.kept e other rest)
  | inl own ↦ rw own (
      Cascaded.ended e own (event-keys g terminate _ now)
        (elim (Bool-cases (g.grant_id == "")) [
          | inl blank ↦ inr blank
          | inr id ↦ inl (
              event_quiet g cid now own
                (subst (λ (s : String). (s == "") ≡ false) (sym ((eq_iff g.cbsd_id cid).0 own))
                  named)
                id)
        ])
        rest)
]

keep-Cascaded :
    (pk : ℕ) (cid : String) (now : ℕ) (gs : List Grant)
    → (cid == "") ≡ false
    → Cascaded pk cid now gs
        (keep (λ (g : Grant). not (nat_beq g.cbsd_pk pk)) (map (terminate_grant cid now) gs))
keep-Cascaded pk cid now [] named = Cascaded.done
keep-Cascaded pk cid now (g ∷ gs) named =
    let same = terminate-key cid now g in
    let rest = keep-Cascaded pk cid now gs named in
    elim (Bool-cases (nat_beq g.cbsd_pk pk)) [
      | inl e ↦ let e' = ap (λ (k : ℕ). nat_beq k pk) same ∙ e in rw e' (Cascaded.gone e rest)
      | inr e ↦
          let e' = ap (λ (k : ℕ). nat_beq k pk) same ∙ e in
          rw e' (row-Cascaded pk cid now g gs _ named e rest)
    ]

-- What the deletion does to the tables: the two it names change so, and no other changes.
abbrev pub Departure : Store → Store → Cbsd → String → ℕ → Type 0
Departure db after c cid now =
    Removed c.pk db.cbsds after.cbsds
    × Cascaded c.pk cid now db.grants after.grants
    × (after ≡ record db { cbsds = after.cbsds; grants = after.grants })

pub delete-Departure :
    (db : Store) (cid : String) (now : ℕ) (c : Cbsd)
    → (cid == "") ≡ false
    → Departure db (delete_cbsd (terminate_grants db cid now) c) c cid now
unfolding delete_cbsd terminate_grants
delete-Departure db cid now c named =
    (keep-Removed c.pk db.cbsds, keep-Cascaded c.pk cid now db.grants named, refl)
