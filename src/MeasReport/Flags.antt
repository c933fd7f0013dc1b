-- ===== src/MeasReport/Flags.antt =====
-- services/meas_report.py: the flags of `admin_injected_data`, which the test harness sets and clears.
use sas_core.Prelude.{
  String, true, false, ◌&&◌, ◌||◌, not, ◌≡◌, ap, subst, List, [], ◌∷◌, ◌++◌, any, if◌then◌else◌,
  ◌==◌, string_eq, eq_iff, Bool-cases, inl, inr, arith,
}
use sas_core.Store.{Store}
use sas_core.Auth.{admin_flag_set}
use sas_core.MeasReport.{flag_meas_reg, flag_meas_hbt}

-- A row is its kind: nothing that is modelled reads `data_json`, which an existing row is given anew.
unfoldable pub set_admin_flag : Store → String → Store
set_admin_flag db kind =
    if admin_flag_set db kind then db else record db { admin_flags = db.admin_flags ++ (kind ∷ []) }

unfoldable pub without_kind : List String → String → List String
without_kind [] kind = []
without_kind (x ∷ xs) kind = let rest = without_kind xs kind in if x == kind then rest else x ∷ rest

unfoldable pub clear_admin_flags : Store → String → Store
clear_admin_flags db kind = record db { admin_flags = without_kind db.admin_flags kind }

unfoldable pub enable_measurement_report_registration : Store → Store
enable_measurement_report_registration db = set_admin_flag db flag_meas_reg

unfoldable pub enable_measurement_report_heartbeat : Store → Store
enable_measurement_report_heartbeat db = set_admin_flag db flag_meas_hbt

any-append :
    (xs : List String) (kind asked : String)
    → any (λ x. x == asked) (xs ++ (kind ∷ [])) ≡ (kind == asked) || any (λ x. x == asked) xs
any-append [] kind asked = ground arith
any-append (x ∷ xs) kind asked = let rest = any-append xs kind asked in ground arith

found_alike :
    (xs : List String) (kind asked : String)
    → any (λ x. x == kind) xs ≡ true
    → kind == asked ≡ true
    → any (λ x. x == asked) xs ≡ true
found_alike xs kind asked h e =
    subst (λ (y : String). any (λ x. x == y) xs ≡ true) ((eq_iff _ _).0 e) h

other_kind : (x kind asked : String) → x == kind ≡ false → kind == asked ≡ true → x == asked ≡ false
other_kind x kind asked h e = subst (λ (y : String). x == y ≡ false) ((eq_iff _ _).0 e) h

any-without :
    (xs : List String) (kind asked : String)
    → any (λ x. x == asked) (without_kind xs kind) ≡ not (kind == asked) && any (λ x. x == asked) xs
unfolding without_kind
any-without [] kind asked = ground arith
any-without (x ∷ xs) kind asked = elim (Bool-cases (x == kind)) [
  | inl same ↦
      let rest = any-without xs kind asked in
      let alike = ap (λ (y : String). y == asked) ((eq_iff _ _).0 same) in rw same (ground arith)
  | inr other ↦
      let rest = any-without xs kind asked in
      elim (Bool-cases (kind == asked)) [
        | inl hit ↦ let apart = other_kind x kind asked other hit in rw other (ground arith)
        | inr miss ↦ rw other (ground arith)
      ]
]

set_again :
    (xs : List String) (kind asked : String)
    → any (λ x. x == kind) xs ≡ true
    → any (λ x. x == asked) xs ≡ (kind == asked) || any (λ x. x == asked) xs
set_again xs kind asked h = elim (Bool-cases (kind == asked)) [
  | inl hit ↦ let there = found_alike xs kind asked h hit in ground arith
  | inr miss ↦ ground arith
]

-- The rows implement a set of kinds: setting a flag adds its kind, clearing it removes that kind, and
-- neither changes any other flag.
pub flags_as_set :
    (db : Store) (kind asked : String)
    → (admin_flag_set (set_admin_flag db kind) asked ≡ (kind == asked) || admin_flag_set db asked)
      × (admin_flag_set (clear_admin_flags db kind) asked
          ≡ not (kind == asked) && admin_flag_set db asked)
unfolding set_admin_flag clear_admin_flags admin_flag_set
flags_as_set db kind asked = (
  elim (Bool-cases (any (λ x. x == kind) db.admin_flags)) [
    | inl there ↦ rw there (set_again db.admin_flags kind asked there)
    | inr missing ↦ rw missing (any-append db.admin_flags kind asked)
  ],
  any-without db.admin_flags kind asked,
)
