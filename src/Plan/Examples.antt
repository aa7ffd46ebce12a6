-- ===== src/Plan/Examples.antt =====
-- The theorems on plans at two layers.
use vigil_rs.Prelude.{ℕ, refl, none, some, List, [], ◌∷◌, contains, has_distinct_keys, keys}
use vigil_rs.Plan.Config.{ServiceConfig, Layer, replace}
use vigil_rs.Plan.Precedence.{IsLayer}
use vigil_rs.Plan.Samples.{sample_service}

-- a service that overrides the sample, and names a group and two dependencies
abbrev other_service : ServiceConfig ℕ
other_service = record sample_service {
  override_mode = replace;
  group = some "www";
  after = "db" ∷ "net" ∷ [];
  environment = ("PORT", "80") ∷ [];
}

abbrev layer_of : ℕ → ServiceConfig ℕ → Layer ℕ
layer_of order service = record {
  order = order;
  label = "layer";
  summary = none;
  description = none;
  services = ("app", service) ∷ [];
  checks = [];
  alerts = record { max_queue_depth = some order; max_queue_time = none; entries = [] };
}

abbrev layers : List (Layer ℕ)
layers = layer_of 1 sample_service ∷ layer_of 2 other_service ∷ []

is_layer : (order : ℕ) (service : ServiceConfig ℕ) → IsLayer (layer_of order service)
unfolding has_distinct_keys contains keys
is_layer order service = record { services = refl; checks = refl; alerts = refl }
