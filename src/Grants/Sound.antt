-- ===== src/Grants/Sound.antt =====
-- services/grant_service.py: what holds when a grant is issued.
use sas_core.Prelude.{
  ℕ, String, false, ◌≡◌, ◌⊎◌, inl, inr, refl, sym, subst, Option, none, some, Bool-cases,
}
use sas_core.Records.{Cbsd}
use sas_core.Store.{Checks}
use sas_core.Auth.{cbsd_certificate_mismatch, lock_cbsd_row, peer_has_grant_for_cbsd}
use sas_core.Spectrum.{Result, ok, err}
use sas_core.Rows.{present}
use sas_core.Grants.Proposal.{GrantRequest, GrantReply, Proposal, propose}
use sas_core.Grants.Admission.{
  active_grants, has_freq_conflict, new_grant, BatchState, admit, grant_locked, grant_proposed,
  grant_known, grant_id_given, grant_one,
}

module _ (env : Checks) (hash : Option String) (st : BatchState) (now : ℕ)
    (req : GrantRequest) where
  -- The checks that a request has passed whose grant is issued.
  abbrev pub Admitted : GrantReply × BatchState → Type 0
  Admitted r =
      (cid : String) × (c : Cbsd) × (p : Proposal) × (present req.cbsd_id ≡ some cid)
      × (lock_cbsd_row st.0.cbsds cid ≡ some c)
      × (cbsd_certificate_mismatch c hash ≡ false)
      × (propose env st.0 c req ≡ ok p)
      × (has_freq_conflict (active_grants st.0.grants cid) p.frequency st.1 cid ≡ false)
      × (peer_has_grant_for_cbsd env st.0 c ≡ false)
      × (env.violates_iap st.0 c p.frequency p.max_eirp ≡ false)
      × (r ≡ admit st cid (new_grant env st.0 c cid req p now))

  -- No grant is issued and nothing changes, or one is.
  abbrev pub Decided : GrantReply × BatchState → Type 0
  Decided r = ((r.0.grant_id ≡ none) × (r.1 ≡ st)) ⊎ Admitted r

  locked-Decided :
      (cid : String) (c : Cbsd) (p : Proposal)
      → present req.cbsd_id ≡ some cid
      → lock_cbsd_row st.0.cbsds cid ≡ some c
      → propose env st.0 c req ≡ ok p
      → Decided (grant_locked env st hash cid req now p (some c))
  unfolding grant_locked
  locked-Decided cid c p hp hc hq = elim (Bool-cases (cbsd_certificate_mismatch c hash)) [
    | inl m ↦ inl (rw m refl, rw m refl)
    | inr m ↦
        elim (Bool-cases (has_freq_conflict (active_grants st.0.grants cid) p.frequency st.1 cid)) [
          | inl f ↦ inl (rw (m, f) refl, rw (m, f) refl)
          | inr f ↦ elim (Bool-cases (peer_has_grant_for_cbsd env st.0 c)) [
            | inl a ↦ inl (rw (m, f, a) refl, rw (m, f, a) refl)
            | inr a ↦ elim (Bool-cases (env.violates_iap st.0 c p.frequency p.max_eirp)) [
              | inl v ↦ inl (rw (m, f, a, v) refl, rw (m, f, a, v) refl)
              | inr v ↦ inr (cid, c, p, hp, hc, m, hq, f, a, v, rw (m, f, a, v) refl)
            ]
          ]
        ]
  ]

  proposed-Decided :
      (cid : String) (c : Cbsd) (o : Result Proposal)
      → present req.cbsd_id ≡ some cid
      → lock_cbsd_row st.0.cbsds cid ≡ some c
      → propose env st.0 c req ≡ o
      → Decided (grant_proposed env st hash cid req now o)
  unfolding grant_proposed
  proposed-Decided cid c (err code) hp hc hq = inl (refl, refl)
  proposed-Decided cid c (ok p) hp hc hq =
      subst (λ o. Decided (grant_locked env st hash cid req now p o)) (sym hc)
        (locked-Decided cid c p hp hc hq)

  known-Decided :
      (cid : String) (o : Option Cbsd)
      → present req.cbsd_id ≡ some cid
      → lock_cbsd_row st.0.cbsds cid ≡ o
      → Decided (grant_known env st hash cid req now o)
  unfolding grant_known
  known-Decided cid none hp hc = inl (refl, refl)
  known-Decided cid (some c) hp hc = elim (Bool-cases (cbsd_certificate_mismatch c hash)) [
    | inl m ↦ inl (rw m refl, rw m refl)
    | inr m ↦ rw m (proposed-Decided cid c _ hp hc refl)
  ]

  given-Decided :
      (o : Option String) → present req.cbsd_id ≡ o → Decided (grant_id_given env st hash req now o)
  unfolding grant_id_given
  given-Decided none hp = inl (refl, refl)
  given-Decided (some cid) hp = known-Decided cid _ hp refl

  -- A grant request either issues no grant and changes nothing, or it has passed every check on the rows
  -- under the locks, and what it answers and stores is the admission of the proposed grant.
  pub grant-Decided : Decided (grant_one env hash st now req)
  unfolding grant_one
  grant-Decided = given-Decided _ refl
