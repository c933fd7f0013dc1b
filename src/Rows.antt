-- ===== src/Rows.antt =====
-- The rows of the database session: what flushing a changed grant and deleting a CBSD do to the
-- tables (models/models.py: `Cbsd.grants` cascades "all, delete-orphan"), and a batch of requests.
pub mod Saved
pub mod Replaced
use sas_core.Prelude.{
  ℕ, String, not, Option, none, some, List, [], ◌∷◌, keep, nat_beq, if◌then◌else◌, ◌==◌, string_eq,
}
use sas_core.Records.{Cbsd, Grant}
use sas_core.Store.{Store}

-- The changed row takes the place of the row with its primary key.
unfoldable pub replace_grant : List Grant → Grant → List Grant
replace_grant [] g = []
replace_grant (x ∷ xs) g =
    let rest = replace_grant xs g in if nat_beq x.pk g.pk then g ∷ rest else x ∷ rest

unfoldable pub save_grant : Store → Grant → Store
save_grant db g = record db { grants = replace_grant db.grants g }

-- `db.delete(cbsd)`: its row goes, and with it the grants whose `cbsd_pk` refers to it.
unfoldable pub delete_cbsd : Store → Cbsd → Store
delete_cbsd db c = record db {
  cbsds = keep (λ (x : Cbsd). not (nat_beq x.pk c.pk)) db.cbsds;
  grants = keep (λ (g : Grant). not (nat_beq g.cbsd_pk c.pk)) db.grants;
}

-- A text that Python's truth test accepts.
unfoldable pub present : Option String → Option String
present none = none
present (some s) = if s == "" then none else some s

-- The requests of a batch in their order, each with its clock reading.
unfoldable pub run_batch {ℓ κ μ} :
    {S : Type ℓ} {Req : Type κ} {Resp : Type μ}
    → (S → ℕ → Req → Resp × S)
    → S
    → List (ℕ × Req)
    → List Resp × S
run_batch step db [] = ([], db)
run_batch step db ((now, req) ∷ rest) =
    let first = step db now req in
    let others = run_batch step first.1 rest in (first.0 ∷ others.0, others.1)
