-- ===== src/Metrics/Counts.antt =====
-- What the families of crates/vigild/src/metrics/mod.rs count.
use vigil_rs.Prelude.{
  ℕ, ◌+◌, ◌≡◌, Bool, false, List, [], ◌∷◌, String, Map, lookup, lookup-insert, get_or, str_eq,
  eq_iff, if◌then◌else◌, arith,
}
use vigil_rs.Metrics.{
  MetricsStore, new_metrics, value_of, inc, set_services, record_service_start, set_service_active,
  record_check_success, record_check_failure, set_check_up, record_alert_fire,
}

-- what the daemon records
data Record : Type 0 where
  services : List String → Record
  service_start check_success check_failure alert_fire : String → Record
  service_active check_up : String → Bool → Record

unfoldable apply : Record → MetricsStore → MetricsStore
apply (services names) m = set_services names m
apply (service_start name) m = record_service_start name m
apply (check_success name) m = record_check_success name m
apply (check_failure name) m = record_check_failure name m
apply (alert_fire name) m = record_alert_fire name m
apply (service_active name b) m = set_service_active name b m
apply (check_up name b) m = set_check_up name b m

unfoldable apply_all : List Record → MetricsStore → MetricsStore
unfolding apply
apply_all [] m = m
apply_all (r ∷ rest) m = apply_all rest (apply r m)

-- is it a start, a success, a failure, a fire of this name
abbrev starts : String → Record → Bool
starts n (service_start name) = str_eq name n
starts n _ = false

abbrev successes : String → Record → Bool
successes n (check_success name) = str_eq name n
successes n _ = false

abbrev failures : String → Record → Bool
failures n (check_failure name) = str_eq name n
failures n _ = false

abbrev fires : String → Record → Bool
fires n (alert_fire name) = str_eq name n
fires n _ = false

abbrev number : (Record → Bool) → List Record → ℕ
number p [] = 0
number p (r ∷ rest) = (if p r then 1 else 0) + number p rest

value_of-inc :
    (name n : String) (family : Map ℕ)
    → value_of n (inc name family) ≡ (if str_eq name n then 1 else 0) + value_of n family
unfolding value_of inc
value_of-inc name n family =
    ground (arith, lookup-insert name n (get_or (lookup name family) 0 + 1) family, eq_iff name n)

-- The counters of one name.
record IsCounted (n : String) (records : List Record) (m m' : MetricsStore) : Type 0 where
  starts_are :
      value_of n m'.service_start_count
      ≡ number (starts n) records + value_of n m.service_start_count
  successes_are :
      value_of n m'.check_success_count
      ≡ number (successes n) records + value_of n m.check_success_count
  failures_are :
      value_of n m'.check_failure_count
      ≡ number (failures n) records + value_of n m.check_failure_count
  fires_are :
      value_of n m'.alert_fire_count ≡ number (fires n) records + value_of n m.alert_fire_count

step-IsCounted : (n : String) (r : Record) (m : MetricsStore) → IsCounted n (r ∷ []) m (apply r m)
unfolding apply set_services record_service_start record_check_success record_check_failure
    record_alert_fire set_service_active set_check_up
step-IsCounted n (services names) m = record {
  starts_are = omega arith;
  successes_are = omega arith;
  failures_are = omega arith;
  fires_are = omega arith;
}
step-IsCounted n (service_start name) m = record {
  starts_are = omega (arith, value_of-inc name n m.service_start_count);
  successes_are = omega arith;
  failures_are = omega arith;
  fires_are = omega arith;
}
step-IsCounted n (check_success name) m = record {
  starts_are = omega arith;
  successes_are = omega (arith, value_of-inc name n m.check_success_count);
  failures_are = omega arith;
  fires_are = omega arith;
}
step-IsCounted n (check_failure name) m = record {
  starts_are = omega arith;
  successes_are = omega arith;
  failures_are = omega (arith, value_of-inc name n m.check_failure_count);
  fires_are = omega arith;
}
step-IsCounted n (alert_fire name) m = record {
  starts_are = omega arith;
  successes_are = omega arith;
  failures_are = omega arith;
  fires_are = omega (arith, value_of-inc name n m.alert_fire_count);
}
step-IsCounted n (service_active name b) m = record {
  starts_are = omega arith;
  successes_are = omega arith;
  failures_are = omega arith;
  fires_are = omega arith;
}
step-IsCounted n (check_up name b) m = record {
  starts_are = omega arith;
  successes_are = omega arith;
  failures_are = omega arith;
  fires_are = omega arith;
}

all-IsCounted :
    (n : String) (records : List Record) (m : MetricsStore)
    → IsCounted n records m (apply_all records m)
unfolding apply_all
all-IsCounted n [] m = record {
  starts_are = omega arith;
  successes_are = omega arith;
  failures_are = omega arith;
  fires_are = omega arith;
}
all-IsCounted n (r ∷ rest) m =
    let first = step-IsCounted n r m in
    let later = all-IsCounted n rest (apply r m) in
    record {
      starts_are = omega (arith, first.starts_are, later.starts_are);
      successes_are = omega (arith, first.successes_are, later.successes_are);
      failures_are = omega (arith, first.failures_are, later.failures_are);
      fires_are = omega (arith, first.fires_are, later.fires_are);
    }

-- From a new store, whatever is recorded in whatever order: the start, success, failure and fire counters of a name
-- are the numbers of the records of that kind under that name.
value_of-apply_all :
    (n : String) (records : List Record)
    → let m : MetricsStore = apply_all records new_metrics in
      (value_of n m.service_start_count ≡ number (starts n) records)
      × (value_of n m.check_success_count ≡ number (successes n) records)
      × (value_of n m.check_failure_count ≡ number (failures n) records)
      × (value_of n m.alert_fire_count ≡ number (fires n) records)
unfolding new_metrics value_of lookup
value_of-apply_all n records =
    let c = all-IsCounted n records new_metrics in
    (
      omega (arith, c.starts_are),
      omega (arith, c.successes_are),
      omega (arith, c.failures_are),
      omega (arith, c.fires_are),
    )
