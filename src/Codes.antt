-- ===== src/Codes.antt =====
-- The WInnForum response codes, as services/*.py and services/error_handlers.py define them.
use sas_core.Prelude.{ℕ}

abbrev pub success : ℕ
success = 0

abbrev pub version_unsupported : ℕ
version_unsupported = 100

abbrev pub blacklisted : ℕ
blacklisted = 101

abbrev pub missing_param : ℕ
missing_param = 102

abbrev pub invalid_param : ℕ
invalid_param = 103

abbrev pub unsupported_spectrum : ℕ
unsupported_spectrum = 300

abbrev pub interference : ℕ
interference = 400

abbrev pub grant_conflict : ℕ
grant_conflict = 401

abbrev pub terminated_grant : ℕ
terminated_grant = 500

abbrev pub suspended_grant : ℕ
suspended_grant = 501

abbrev pub unsync_op_param : ℕ
unsync_op_param = 502

abbrev pub pending : ℕ
pending = 200
