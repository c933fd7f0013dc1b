-- ===== src/Registration/InstallerKey.antt =====
-- services/registration_service.py: the public key that a signature is checked with.
use sas_core.Prelude.{
  String, Bool, true, false, ◌≡◌, subst, Option, none, some, List, [], ◌∷◌, if◌then◌else◌,
  Bool-cases, inl, inr, ◌==◌, string_eq,
}
use sas_core.Store.{Store}
use sas_core.Json.{Fields, get, has, object_or_empty}
use sas_core.Checked.{Checked, passed, or_raise, bind_passed, or_raise_passed}
use sas_core.Cpi.{CpiTools, str_of, decode_cpi_signed_data}
use sas_core.Registration.Params.{find_cpi_key, or_end, peek_key}

-- The first row of an installer has this key.
pub data HasKey (id pem : String) : List (String × String) → Type 0 where
  first :
      {i : String} {rows : List (String × String)}
      → (i == id) ≡ true
      → HasKey id pem ((i, pem) ∷ rows)
  later :
      {i other : String} {rows : List (String × String)}
      → (i == id) ≡ false
      → HasKey id pem rows
      → HasKey id pem ((i, other) ∷ rows)

find-HasKey :
    (rows : List (String × String)) (id pem : String)
    → find_cpi_key rows id ≡ some pem
    → HasKey id pem rows
unfolding find_cpi_key
find-HasKey [] id pem h = cc
find-HasKey ((i, p) ∷ rows) id pem h = elim (Bool-cases (i == id)) [
  | inl e ↦ by_key p e (rw e at h)
  | inr e ↦ later e (find-HasKey rows id pem (rw e at h))
]
  where
    by_key :
        (p : String)
        → (i == id) ≡ true
        → ◌≡◌ {A = Option String} (some p) (some pem)
        → HasKey id pem ((i, p) ∷ rows)
    by_key p e q = subst (λ (x : String). HasKey id pem ((i, x) ∷ rows)) (key_of q) (first e)
      where
        key_of : ◌≡◌ {A = Option String} (some p) (some pem) → pem ≡ p
        key_of q = cc

-- A key that is injected for the `cpiId` of the installer data in the signed payload.
pub data IsInstallerKey (tools : CpiTools) (db : Store) (sig : Fields) (pem : String) : Type 0 where
  installer_key :
      (prof : Fields)
      → object_or_empty
          (get "professionalInstallerData" (or_end (decode_cpi_signed_data tools sig)))
        ≡ some prof
      → HasKey (str_of tools (get "cpiId" prof)) pem db.cpi_users
      → IsInstallerKey tools db sig pem

pub peek-IsInstallerKey :
    (tools : CpiTools) (db : Store) (sig : Fields) (pem : String)
    → peek_key tools db sig ≡ passed (some pem)
    → IsInstallerKey tools db sig pem
unfolding peek_key
peek-IsInstallerKey tools db sig pem h =
    let (prof, h1, r1) =
      bind_passed
        (or_raise (
          object_or_empty
            (get "professionalInstallerData" (or_end (decode_cpi_signed_data tools sig)))))
        _ h in
    installer_key prof (or_raise_passed _ h1) (named prof (has "cpiId" prof) r1)
  where
    named :
        (prof : Fields) (b : Bool)
        → ◌≡◌ {A = Checked (Option String)}
            (passed
              (if b then find_cpi_key db.cpi_users (str_of tools (get "cpiId" prof)) else none))
            (passed (some pem))
        → HasKey (str_of tools (get "cpiId" prof)) pem db.cpi_users
    named prof true e = find-HasKey db.cpi_users _ pem cc
    named prof false e = cc
