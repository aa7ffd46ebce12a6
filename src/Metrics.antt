-- ===== src/Metrics.antt =====
-- `MetricsStore` of crates/vigild/src/metrics/mod.rs: its families of counters and gauges by label, and what records in
-- them. The registry and the text format are the library's.
mod Counts
use vigil_rs.Prelude.{
  ℕ, ◌+◌, Bool, List, [], ◌∷◌, String, Map, lookup, insert, get_or, length, if◌then◌else◌,
}

pub record MetricsStore : Type 0 where
  pub service_start_count : Map ℕ
  pub service_active : Map ℕ
  pub service_info : Map ℕ
  pub services_count : ℕ
  pub check_up : Map ℕ
  pub check_success_count : Map ℕ
  pub check_failure_count : Map ℕ
  pub alert_fire_count : Map ℕ

unfoldable pub new_metrics : MetricsStore
new_metrics = record {
  service_start_count = [];
  service_active = [];
  service_info = [];
  services_count = 0;
  check_up = [];
  check_success_count = [];
  check_failure_count = [];
  alert_fire_count = [];
}

-- the value under a label, which is 0 where it is made
unfoldable pub value_of : String → Map ℕ → ℕ
value_of label family = get_or (lookup label family) 0

-- `get_or_create(..).inc()` and `get_or_create(..).set(n)`
unfoldable pub inc : String → Map ℕ → Map ℕ
unfolding value_of
inc label family = insert label (value_of label family + 1) family

abbrev pub set : String → ℕ → Map ℕ → Map ℕ
set label n family = insert label n family

unfoldable pub set_each : List String → Map ℕ → Map ℕ
set_each [] family = family
set_each (name ∷ rest) family = set_each rest (set name 1 family)

unfoldable pub set_services : List String → MetricsStore → MetricsStore
unfolding set_each
set_services names m = record m {
  service_info = set_each names m.service_info;
  services_count = length names;
}

unfoldable pub record_service_start : String → MetricsStore → MetricsStore
unfolding inc
record_service_start service m = record m {
  service_start_count = inc service m.service_start_count;
}

unfoldable pub set_service_active : String → Bool → MetricsStore → MetricsStore
set_service_active service active m = record m {
  service_active = set service (if active then 1 else 0) m.service_active;
}

unfoldable pub record_check_success : String → MetricsStore → MetricsStore
unfolding inc
record_check_success check m = record m { check_success_count = inc check m.check_success_count }

unfoldable pub record_check_failure : String → MetricsStore → MetricsStore
unfolding inc
record_check_failure check m = record m { check_failure_count = inc check m.check_failure_count }

unfoldable pub set_check_up : String → Bool → MetricsStore → MetricsStore
set_check_up check up m = record m { check_up = set check (if up then 1 else 0) m.check_up }

unfoldable pub record_alert_fire : String → MetricsStore → MetricsStore
unfolding inc
record_alert_fire alert m = record m { alert_fire_count = inc alert m.alert_fire_count }
