-- ===== src/Examples/Data.antt =====
-- One registered CBSD with one grant, and surroundings in which no check objects.
use sas_core.Prelude.{true, false, none, some, [], ◌∷◌}
use sas_core.Prelude.Int.{pos}
use sas_core.Number.{finite}
use sas_core.Records.{Cbsd, Stamp, Grant}
use sas_core.Store.{Store, Checks, Location, indeterminate}

abbrev pub site : Location
site = (finite (pos 40), finite (pos 74))

abbrev pub device : Cbsd
device = record {
  pk = 1;
  cbsd_id = "fcc/1";
  fcc_id = "fcc";
  user_id = "user";
  cbsd_serial_number = "1";
  cbsd_category = some "A";
  certificate_hash = none;
  lifecycle_state = "REGISTERED";
  registration = record {
    cbsd_category = some "A";
    meas_capability = [];
    has_installation = true;
    location = some site;
    eirp_capability = none;
  };
}

abbrev pub zero_stamp : Stamp
zero_stamp = record { fss = 0; gwbl = 0; exz = 0; dpa = 0 }

-- It runs out 1000 seconds after the epoch.
abbrev pub held : Grant
held = record {
  pk = 7;
  grant_id = "grant/a";
  cbsd_pk = 1;
  cbsd_id = "fcc/1";
  channel_type = "GAA";
  low_frequency = 3_550_000_000;
  high_frequency = 3_560_000_000;
  max_eirp = some (pos 20000);
  grant_expire_time = 1_000_000_000;
  heartbeat_interval = 60;
  transmit_expire_time = none;
  authorized = false;
  meas_report_requested = false;
  terminated = false;
  lifecycle_state = "GRANTED";
  stamp = zero_stamp;
  auth_context = none;
}

abbrev pub tables : Store
tables = record {
  cbsds = device ∷ [];
  grants = held ∷ [];
  pals = [];
  pal_rows = [];
  zones = [];
  wisps = [];
  fsses = [];
  fcc_max_eirps = [];
  user_ids = [];
  conditionals = [];
  cpi_users = [];
  blacklisted_fcc_ids = [];
  blacklisted_serials = [];
  admin_flags = [];
  peer_cbsds = [];
  sync = zero_stamp;
}

abbrev pub calm : Checks
calm = record {
  fad_cbsd_id = λ f s. s;
  point_in_geojson = λ l z. false;
  within_fss_distance = λ a b. false;
  exclusion_ranges = λ db l. some [];
  hits_exclusion_zone = λ db l r. some false;
  blocked_by_gwpz = λ db l r. some false;
  blocked_by_quiet_zone = λ db l c r. false;
  blocked_by_fss_gwbl = λ db l r. false;
  violates_dpa = λ db c r e. false;
  violates_border_pfd = λ c e r. false;
  violates_iap = λ db c r e. false;
  overlaps_active_dpa = λ db g. false;
  federal_code = λ db c g. none;
  dpa_neighborhood = λ db c. indeterminate;
}
