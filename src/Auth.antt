-- ===== src/Auth.antt =====
-- services/cbsd_auth.py, services/blacklist_service.py, services/concurrency.py and
-- services/cpas_service.py: the identity checks that the procedures share.
use Prim.Native.Char.{code}
use sas_core.Prelude.{
  ℕ, ◌-◌, String, Bool, true, false, ◌&&◌, ◌||◌, not, Option, none, some, List, [], ◌∷◌, leb, any,
  nat_beq, if◌then◌else◌, ◌==◌, string_eq,
}
use sas_core.Records.{Cbsd, Grant}
use sas_core.Store.{Store, Checks, PeerCbsd}

-- Python's truth test on an optional text.
unfoldable pub is_blank : Option String → Bool
is_blank none = true
is_blank (some s) = s == ""

-- The code points of `s.upper()`; a fingerprint is ASCII.
unfoldable pub upper : String → List ℕ
upper String.[] = []
upper (String.◌∷◌ c s) =
    (if leb b'a' (code c) && leb (code c) b'z' then code c - 32 else code c) ∷ upper s

unfoldable pub same_codes : List ℕ → List ℕ → Bool
same_codes [] [] = true
same_codes (x ∷ xs) (y ∷ ys) = nat_beq x y && same_codes xs ys
same_codes _ _ = false

unfoldable pub fingerprints_differ : Option String → Option String → Bool
unfolding upper same_codes
fingerprints_differ (some a) (some b) = not (same_codes (upper a) (upper b))
fingerprints_differ _ _ = false

unfoldable pub cbsd_certificate_mismatch : Cbsd → Option String → Bool
unfolding is_blank fingerprints_differ
cbsd_certificate_mismatch c hash =
    if is_blank c.certificate_hash
    then false
    else if is_blank hash
    then true
    else fingerprints_differ c.certificate_hash hash

unfoldable pub is_fcc_id_blacklisted : Store → String → Bool
is_fcc_id_blacklisted db fcc = any (λ x. x == fcc) db.blacklisted_fcc_ids

unfoldable pub is_cbsd_blacklisted : Store → String → String → Bool
unfolding is_fcc_id_blacklisted
is_cbsd_blacklisted db fcc serial =
    is_fcc_id_blacklisted db fcc
    || any (λ (row : String × String). row.0 == fcc && row.1 == serial) db.blacklisted_serials

-- `filter_by(cbsd_id=...).first()`
unfoldable pub lock_cbsd_row : List Cbsd → String → Option Cbsd
lock_cbsd_row [] id = none
lock_cbsd_row (c ∷ rest) id = if c.cbsd_id == id then some c else lock_cbsd_row rest id

-- `filter_by(grant_id=..., cbsd_id=...).first()`
unfoldable pub lock_grant_row : List Grant → String → String → Option Grant
lock_grant_row [] gid cid = none
lock_grant_row (g ∷ rest) gid cid =
    if g.grant_id == gid && g.cbsd_id == cid then some g else lock_grant_row rest gid cid

-- A grant of a peer counts unless it is marked terminated.
unfoldable pub has_active_peer_grant : PeerCbsd → Bool
has_active_peer_grant r = any not r.grants_terminated

unfoldable pub peer_has_grant_for_cbsd : Checks → Store → Cbsd → Bool
unfolding has_active_peer_grant
peer_has_grant_for_cbsd env db c =
    any (λ r. r.id == env.fad_cbsd_id c.fcc_id c.cbsd_serial_number && has_active_peer_grant r)
      db.peer_cbsds

unfoldable pub admin_flag_set : Store → String → Bool
admin_flag_set db kind = any (λ x. x == kind) db.admin_flags
