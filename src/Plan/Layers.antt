-- ===== src/Plan/Layers.antt =====
-- `Plan::from_layers` of crates/vigil-types/src/plan/layer.rs.
use vigil_rs.Prelude.{String, Option, none, some, List, [], ◌∷◌, Map, lookup, insert, or_else}
use vigil_rs.Plan.Config.{
  Override, merge, replace, ServiceConfig, CheckConfig, AlertConfig, Layer, Plan,
}
use vigil_rs.Plan.Merge.{merge_service, merge_check, merge_alert}

-- The loop body is the same for services, checks and alerts. `mode` is the entry's
-- `override_mode`, `merge_into` the merge of its kind.
module _ {C : Type 0} (mode : C → Override) (merge_into : C → C → C) where
  -- What an entry makes of what is there: it replaces, or is laid over.
  abbrev pub merged : Override → Option C → C → C
  merged replace found entry = entry
  merged merge none entry = entry
  merged merge (some existing) entry = merge_into existing entry

  -- `get_mut` and a merge in place is an insertion under a key that is there.
  unfoldable pub add_entry : Map C → String → C → Map C
  add_entry m name entry = insert name (merged (mode entry) (lookup name m) entry) m

  unfoldable pub add_entries : Map C → Map C → Map C
  unfolding add_entry
  add_entries m [] = m
  add_entries m ((name, entry) ∷ rest) = add_entries (add_entry m name entry) rest

abbrev pub add_services :
    {F : Type 0} → Map (ServiceConfig F) → Map (ServiceConfig F) → Map (ServiceConfig F)
add_services = add_entries (λ c. c.override_mode) merge_service

abbrev pub add_checks : Map CheckConfig → Map CheckConfig → Map CheckConfig
add_checks = add_entries (λ c. c.override_mode) merge_check

abbrev pub add_alerts : Map AlertConfig → Map AlertConfig → Map AlertConfig
add_alerts = add_entries (λ c. c.override_mode) merge_alert

module _ {F : Type 0} where
  abbrev pub empty_plan : List (Layer F) → Plan F
  empty_plan layers = record {
    layers = layers;
    services = [];
    checks = [];
    alerts = [];
    alert_queue_depth = none;
    alert_max_queue_time = none;
  }

  -- One round of `for layer in &layers`.
  unfoldable pub add_layer : Plan F → Layer F → Plan F
  add_layer p layer = record p {
    services = add_services p.services layer.services;
    checks = add_checks p.checks layer.checks;
    alert_queue_depth = or_else layer.alerts.max_queue_depth p.alert_queue_depth;
    alert_max_queue_time = or_else layer.alerts.max_queue_time p.alert_max_queue_time;
    alerts = add_alerts p.alerts layer.alerts.entries;
  }

  unfoldable pub add_all : Plan F → List (Layer F) → Plan F
  unfolding add_layer
  add_all p [] = p
  add_all p (layer ∷ layers) = add_all (add_layer p layer) layers

  unfoldable pub from_layers : List (Layer F) → Plan F
  unfolding add_all
  from_layers layers = add_all (empty_plan layers) layers
