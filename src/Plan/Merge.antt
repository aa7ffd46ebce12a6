-- ===== src/Plan/Merge.antt =====
-- `merge_service`, `merge_check` and `merge_alert` of crates/vigil-types/src/plan/: an overlay over
-- what earlier layers have said.
use vigil_rs.Prelude.{
  String, List, [], ◌∷◌, ◌++◌, contains, extend, or_else, is_empty, str_eq, if◌then◌else◌,
}
use vigil_rs.Plan.Config.{ServiceConfig, CheckConfig, AlertConfig}

-- `for v in &overlay { if !base.contains(v) { base.push(v) } }`
unfoldable pub union : List String → List String → List String
union base [] = base
union base (v ∷ overlay) = union (if contains base v then base else base ++ v ∷ []) overlay

-- The macro `opt!` is `or_else`: the overlay's value, if it has one.
unfoldable pub merge_service : {F : Type 0} → ServiceConfig F → ServiceConfig F → ServiceConfig F
merge_service base overlay = record base {
  summary = or_else overlay.summary base.summary;
  description = or_else overlay.description base.description;
  command = or_else overlay.command base.command;
  startup = overlay.startup;
  after = union base.after overlay.after;
  before = union base.before overlay.before;
  requires = union base.requires overlay.requires;
  environment = extend base.environment overlay.environment;
  user = or_else overlay.user base.user;
  user_id = or_else overlay.user_id base.user_id;
  group = or_else overlay.group base.group;
  group_id = or_else overlay.group_id base.group_id;
  working_dir = or_else overlay.working_dir base.working_dir;
  stop_signal = or_else overlay.stop_signal base.stop_signal;
  kill_delay = or_else overlay.kill_delay base.kill_delay;
  on_success = or_else overlay.on_success base.on_success;
  on_failure = or_else overlay.on_failure base.on_failure;
  on_check_failure = extend base.on_check_failure overlay.on_check_failure;
  backoff_delay = or_else overlay.backoff_delay base.backoff_delay;
  backoff_factor = or_else overlay.backoff_factor base.backoff_factor;
  backoff_limit = or_else overlay.backoff_limit base.backoff_limit;
  logs_forward = or_else overlay.logs_forward base.logs_forward;
  logs_push_socket = or_else overlay.logs_push_socket base.logs_push_socket;
  logs_push_addr = or_else overlay.logs_push_addr base.logs_push_addr;
  logs_push_format = or_else overlay.logs_push_format base.logs_push_format;
}

unfoldable pub merge_check : CheckConfig → CheckConfig → CheckConfig
merge_check base overlay = record base {
  level = overlay.level;
  startup = overlay.startup;
  delay = or_else overlay.delay base.delay;
  period = or_else overlay.period base.period;
  timeout = or_else overlay.timeout base.timeout;
  threshold = or_else overlay.threshold base.threshold;
  http = or_else overlay.http base.http;
  tcp = or_else overlay.tcp base.tcp;
  exec = or_else overlay.exec base.exec;
}

unfoldable pub merge_alert : AlertConfig → AlertConfig → AlertConfig
unfolding union
merge_alert base overlay = record base {
  url = if str_eq overlay.url "" then base.url else overlay.url;
  format = overlay.format;
  tls_insecure = overlay.tls_insecure;
  tls_ca = or_else overlay.tls_ca base.tls_ca;
  proxy = or_else overlay.proxy base.proxy;
  proxy_ca = or_else overlay.proxy_ca base.proxy_ca;
  no_proxy = or_else overlay.no_proxy base.no_proxy;
  retry_attempts = or_else overlay.retry_attempts base.retry_attempts;
  body_template = or_else overlay.body_template base.body_template;
  retry_backoff =
      if is_empty overlay.retry_backoff then base.retry_backoff else overlay.retry_backoff;
  headers = extend base.headers overlay.headers;
  labels = extend base.labels overlay.labels;
  send_info_fields = extend base.send_info_fields overlay.send_info_fields;
  on_check = union base.on_check overlay.on_check;
}
