-- ===== src/Service/State.antt =====
-- crates/vigild/src/state.rs, and the status that the API shows (crates/vigil-types/src/api.rs).
use vigil_rs.Prelude.{Bool, true, false}

pub data ServiceState : Type 0 where
  inactive starting active stopping backoff error : ServiceState

pub data ServiceStatus : Type 0 where
  status_active status_inactive status_backoff status_error : ServiceStatus

unfoldable pub to_api_status : ServiceState → ServiceStatus
to_api_status inactive = status_inactive
to_api_status stopping = status_inactive
to_api_status starting = status_active
to_api_status active = status_active
to_api_status backoff = status_backoff
to_api_status error = status_error

abbrev pub is_running : ServiceState → Bool
is_running starting = true
is_running active = true
is_running _ = false

-- the comparisons of the source with one state
abbrev pub is_active : ServiceState → Bool
is_active active = true
is_active _ = false

abbrev pub is_stopping : ServiceState → Bool
is_stopping stopping = true
is_stopping _ = false

abbrev pub is_error : ServiceState → Bool
is_error error = true
is_error _ = false
