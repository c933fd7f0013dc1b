-- ===== src/Examples/Devices.antt =====
-- A device that registers with installation data that a professional installer signed.
use sas_core.Prelude.{
  ℕ, suc, ◌<◌, max, true, false, some, List, [], ◌∷◌, All-mono, if◌then◌else◌, ◌==◌, string_eq,
  arith,
}
use sas_core.Prelude.Int.{pos}
use sas_core.Records.{Cbsd}
use sas_core.Store.{Store}
use sas_core.Number.{finite}
use sas_core.Json.{bool, num, text, obj, Fields, end, field}
use sas_core.Cpi.{CpiTools}
use sas_core.Registration.Validate.{RegistrationChecks}
use sas_core.Registration.Invariant.{FreshPk}
use sas_core.Registration.Handler.{RegistrationRequest}
use sas_core.Examples.Data.{tables}

abbrev pub place : Fields
place = field "latitude" (num (finite (pos 40_000))) (
    field "longitude" (num (finite (pos 74_000))) (
      field "height" (num (finite (pos 5_000))) (
        field "heightType" (text "AGL") (
          field "indoorDeployment" (bool true)
            (field "eirpCapability" (num (finite (pos 20_000))) end)))))

abbrev pub header : Fields
header = field "alg" (text "RS256") end

abbrev pub payload : Fields
payload = field "fccId" (text "fcc") (
    field "cbsdSerialNumber" (text "1") (
      field "installationParam" (obj place) (
        field "professionalInstallerData"
          (obj (field "cpiId" (text "cpi") (field "installCertificationTime" (text "t") end)))
          end)))

abbrev pub sig_rest : Fields
sig_rest = field "encodedCpiSignedData" (text "p") (field "digitalSignature" (text "s") end)

abbrev pub request : Fields
request = field "userId" (text "user") (
    field "fccId" (text "fcc") (
      field "cbsdSerialNumber" (text "1") (
        field "cbsdCategory" (text "A") (
          field "airInterface" (obj (field "radioTechnology" (text "E_UTRA") end))
            (field "cpiSignatureData" (obj (field "protectedHeader" (text "h") sig_rest)) end)))))

abbrev pub merged : Fields
merged = field "userId" (text "user") (
    field "fccId" (text "fcc") (
      field "cbsdSerialNumber" (text "1") (
        field "cbsdCategory" (text "A") (
          field "airInterface" (obj (field "radioTechnology" (text "E_UTRA") end)) (
            field "cpiSignatureData" (obj (field "protectedHeader" (text "h") sig_rest))
              (field "installationParam" (obj place) end))))))

abbrev pub tools : CpiTools
tools = record {
  decode = λ t. if t == "h" then some header else some payload;
  shown = λ j. "";
  strip = λ s. s;
  parse_time = λ s. some 0;
  signature_valid = λ alg key h p s. true;
}

abbrev pub above : List Cbsd → ℕ
above [] = 1
above (c ∷ cs) = max (suc c.pk) (above cs)

pub above-FreshPk : FreshPk above
above-FreshPk [] = tt
above-FreshPk (c ∷ cs) = (
  ground arith,
  All-mono (λ (x : Cbsd). x.pk < above cs) _ cs (λ x h. ground arith) (above-FreshPk cs),
)

abbrev pub site_checks : RegistrationChecks
site_checks = record {
  tools = tools;
  haat_exceeds_limit = λ d. false;
  blocked_by_quiet_zone = λ db d m. false;
  next_pk = above;
}

abbrev pub registry : Store
registry = record tables {
  user_ids = "user" ∷ [];
  fcc_max_eirps = ("fcc", pos 47_000) ∷ [];
  cpi_users = ("cpi", "key") ∷ [];
}

abbrev pub signed_request : RegistrationRequest
signed_request = record { body = request; race_lost = false }
