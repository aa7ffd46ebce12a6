-- ===== src/Plan/Samples.antt =====
-- Sample configurations.
use vigil_rs.Prelude.{none, some, [], codes, ℕ}
use vigil_rs.Plan.Config.{ServiceConfig, merge, enabled, shutdown}

abbrev pub sample_service : ServiceConfig ℕ
sample_service = record {
  override_mode = merge;
  summary = none;
  description = none;
  command = some (codes "/bin/app -v");
  startup = enabled;
  after = [];
  before = [];
  requires = [];
  environment = [];
  user = none;
  user_id = none;
  group = none;
  group_id = none;
  working_dir = none;
  stop_signal = none;
  kill_delay = none;
  on_success = some shutdown;
  on_failure = none;
  on_check_failure = [];
  backoff_delay = none;
  backoff_factor = none;
  backoff_limit = none;
  logs_forward = none;
  logs_push_socket = none;
  logs_push_addr = none;
  logs_push_format = none;
}
