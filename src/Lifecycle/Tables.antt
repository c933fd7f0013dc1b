-- ===== src/Lifecycle/Tables.antt =====
-- services/lifecycle.py: TransitionSpec and the two tables. A set is listed; a set of field names
-- in sorted order, as `missing_required_fields` walks it.
use sas_core.Prelude.{ℕ, String, Bool, true, false, List, [], ◌∷◌}
use sas_core.Codes.{success, invalid_param, terminated_grant, suspended_grant}
use sas_core.Lifecycle.States.{
  CbsdState, unregistered, registered, deregistered, GrantState, requested, granted, authorized,
  suspended, terminated, expired, relinquished, CbsdEvent, register, reregister, deregister,
  GrantEvent, approve, authorize, suspend, terminate, expire, relinquish,
}

pub data Isolation : Type 0 where
  row_lock no_lock : Isolation

pub record TransitionSpec (S : Type 0) : Type 0 where
  pub event : String
  pub sources : List S
  pub target : S
  pub success_code : ℕ
  pub required_fields : List String
  pub persistent_effect : String
  pub idempotent : Bool
  pub isolation : Isolation
  pub failure_code : ℕ

-- CBSD_TRANSITIONS
unfoldable pub cbsd_transitions : CbsdEvent → TransitionSpec CbsdState
cbsd_transitions register = record {
  event = "register";
  sources = unregistered ∷ deregistered ∷ [];
  target = registered;
  success_code = success;
  required_fields = "cbsdSerialNumber" ∷ "fccId" ∷ "userId" ∷ [];
  persistent_effect = "insert_or_restore_cbsd";
  idempotent = false;
  isolation = row_lock;
  failure_code = invalid_param;
}
cbsd_transitions reregister = record {
  event = "reregister";
  sources = registered ∷ [];
  target = registered;
  success_code = success;
  required_fields = "cbsdSerialNumber" ∷ "fccId" ∷ "userId" ∷ [];
  persistent_effect = "update_cbsd_registration";
  idempotent = true;
  isolation = row_lock;
  failure_code = invalid_param;
}
cbsd_transitions deregister = record {
  event = "deregister";
  sources = registered ∷ [];
  target = deregistered;
  success_code = success;
  required_fields = "cbsdId" ∷ [];
  persistent_effect = "delete_cbsd_and_grants";
  idempotent = false;
  isolation = row_lock;
  failure_code = invalid_param;
}

-- GRANT_TRANSITIONS
unfoldable pub grant_transitions : GrantEvent → TransitionSpec GrantState
grant_transitions approve = record {
  event = "approve";
  sources = requested ∷ [];
  target = granted;
  success_code = success;
  required_fields = "cbsdId" ∷ "operationParam" ∷ [];
  persistent_effect = "insert_grant_row";
  idempotent = false;
  isolation = row_lock;
  failure_code = invalid_param;
}
grant_transitions authorize = record {
  event = "authorize";
  sources = granted ∷ authorized ∷ suspended ∷ [];
  target = authorized;
  success_code = success;
  required_fields = "cbsdId" ∷ "grantId" ∷ "operationState" ∷ [];
  persistent_effect = "set_authorized_true";
  idempotent = true;
  isolation = row_lock;
  failure_code = invalid_param;
}
grant_transitions suspend = record {
  event = "suspend";
  sources = granted ∷ authorized ∷ suspended ∷ [];
  target = suspended;
  success_code = suspended_grant;
  required_fields = "cbsdId" ∷ "grantId" ∷ [];
  persistent_effect = "set_suspended";
  idempotent = true;
  isolation = row_lock;
  failure_code = invalid_param;
}
grant_transitions terminate = record {
  event = "terminate";
  sources = granted ∷ authorized ∷ suspended ∷ [];
  target = terminated;
  success_code = terminated_grant;
  required_fields = "cbsdId" ∷ "grantId" ∷ [];
  persistent_effect = "set_terminated";
  idempotent = false;
  isolation = row_lock;
  failure_code = invalid_param;
}
grant_transitions expire = record {
  event = "expire";
  sources = granted ∷ authorized ∷ suspended ∷ [];
  target = expired;
  success_code = invalid_param;
  required_fields = "cbsdId" ∷ "grantId" ∷ [];
  persistent_effect = "set_expired";
  idempotent = true;
  isolation = no_lock;
  failure_code = invalid_param;
}
grant_transitions relinquish = record {
  event = "relinquish";
  sources = granted ∷ authorized ∷ suspended ∷ [];
  target = relinquished;
  success_code = success;
  required_fields = "cbsdId" ∷ "grantId" ∷ [];
  persistent_effect = "set_relinquished";
  idempotent = false;
  isolation = row_lock;
  failure_code = invalid_param;
}
