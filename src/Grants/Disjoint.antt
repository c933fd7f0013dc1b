-- ===== src/Grants/Disjoint.antt =====
-- services/grant_service.py: grants of one CBSD never overlap.
use sas_core.Prelude.{
  ℕ, String, Bool, false, ◌&&◌, ◌||◌, not, ◌≡◌, inl, inr, refl, sym, subst, Option, List, [], ◌∷◌,
  ◌++◌, any, All, Bool-cases, ◌==◌, string_eq, arith,
}
use sas_core.Records.{Cbsd, Grant}
use sas_core.Store.{Store, Checks}
use sas_core.Spectrum.{overlaps}
use sas_core.Rows.Saved.{run_batch-Invariant}
use sas_core.Grants.Sound.{grant-Decided}
use sas_core.Grants.Proposal.{GrantRequest, GrantReply, Proposal}
use sas_core.Grants.Admission.{
  active_grants, has_freq_conflict, new_grant, insert_grant, BatchState, admit, grant_one,
  process_grant,
}

-- Two active grants of one CBSD on a common frequency.
unfoldable pub conflicts : Grant → Grant → Bool
unfolding overlaps
conflicts a b =
    a.cbsd_id == b.cbsd_id
    && not a.terminated
    && not b.terminated
    && overlaps a.low_frequency a.high_frequency b.low_frequency b.high_frequency

-- No two rows conflict.
abbrev pub Disjoint : List Grant → Type 0
Disjoint [] = Unit
Disjoint (g ∷ gs) = All (λ x. conflicts g x ≡ false) gs × Disjoint gs

All-snoc :
    (g x : Grant) (gs : List Grant)
    → All (λ y. conflicts g y ≡ false) gs
    → conflicts g x ≡ false
    → All (λ y. conflicts g y ≡ false) (gs ++ (x ∷ []))
All-snoc g x [] a h = (h, tt)
All-snoc g x (y ∷ ys) a h = (a.0, All-snoc g x ys a.1 h)

Disjoint-snoc :
    (gs : List Grant) (x : Grant)
    → Disjoint gs
    → All (λ y. conflicts y x ≡ false) gs
    → Disjoint (gs ++ (x ∷ []))
Disjoint-snoc [] x d a = (tt, tt)
Disjoint-snoc (g ∷ gs) x d a = (All-snoc g x gs d.0 a.0, Disjoint-snoc gs x d.1 a.1)

-- A row that is not active for the CBSD does not conflict.
inactive :
    (g x : Grant) (cid : String)
    → x.cbsd_id ≡ cid
    → (g.cbsd_id == cid && not g.terminated) ≡ false
    → conflicts g x ≡ false
unfolding conflicts
inactive g x cid e h = rw e (ground arith)

active :
    (g x : Grant)
    → overlaps g.low_frequency g.high_frequency x.low_frequency x.high_frequency ≡ false
    → conflicts g x ≡ false
unfolding conflicts
active g x h = ground arith

or_false : (a b : Bool) → (a || b) ≡ false → (a ≡ false) × (b ≡ false)
or_false a b h = ground arith

no_conflict :
    (gs : List Grant) (x : Grant) (cid : String)
    → x.cbsd_id ≡ cid
    → any
        (λ (g : Grant). overlaps g.low_frequency g.high_frequency x.low_frequency x.high_frequency)
        (active_grants gs cid)
      ≡ false
    → All (λ y. conflicts y x ≡ false) gs
unfolding active_grants
no_conflict [] x cid e h = tt
no_conflict (g ∷ gs) x cid e h = elim (Bool-cases (g.cbsd_id == cid && not g.terminated)) [
  | inl a ↦
      let split = or_false _ _ (rw a at h) in (active g x split.0, no_conflict gs x cid e split.1)
  | inr a ↦ (inactive g x cid e a, no_conflict gs x cid e (rw a at h))
]

admit-Disjoint :
    (env : Checks) (st : BatchState) (c : Cbsd) (cid : String) (req : GrantRequest) (p : Proposal)
    (now : ℕ)
    → Disjoint st.0.grants
    → has_freq_conflict (active_grants st.0.grants cid) p.frequency st.1 cid ≡ false
    → Disjoint (admit st cid (new_grant env st.0 c cid req p now)).1.0.grants
unfolding admit insert_grant has_freq_conflict new_grant
admit-Disjoint env st c cid req p now d h =
    Disjoint-snoc st.0.grants (new_grant env st.0 c cid req p now) d
      (no_conflict st.0.grants (new_grant env st.0 c cid req p now) cid refl (or_false _ _ h).0)

grant_one-Disjoint :
    (env : Checks) (hash : Option String) (st : BatchState) (now : ℕ) (req : GrantRequest)
    → Disjoint st.0.grants
    → Disjoint (grant_one env hash st now req).1.0.grants
grant_one-Disjoint env hash st now req d = elim (grant-Decided env hash st now req) [
  | inl (no_grant, same) ↦ subst (λ (s : BatchState). Disjoint s.0.grants) (sym same) d
  | inr (cid, c, p, hp, hc, m, hq, f, a, v, is_it) ↦
      subst (λ (r : GrantReply × BatchState). Disjoint r.1.0.grants) (sym is_it)
        (admit-Disjoint env st c cid req p now d f)
]

-- If no two active grants of a CBSD overlap, a batch of grant requests keeps it so, whatever the requests and
-- their times.
pub process_grant-Disjoint :
    (env : Checks) (db : Store) (hash : Option String) (reqs : List (ℕ × GrantRequest))
    → Disjoint db.grants
    → Disjoint (process_grant env db hash reqs).1.0.grants
unfolding process_grant
process_grant-Disjoint env db hash reqs d =
    run_batch-Invariant (λ (s : BatchState). Disjoint s.0.grants) (grant_one env hash)
      (λ st now req h. grant_one-Disjoint env hash st now req h) (db, []) reqs d
