-- ===== src/Plan/InForce.antt =====
-- What `Plan::from_layers` of crates/vigil-types/src/plan/layer.rs makes of the layers, told without its loop.
use vigil_rs.Prelude.{
  String, Bool, true, false, ◌||◌, ◌≡◌, Option, none, some, List, [], ◌∷◌, Map, lookup, map,
  if◌then◌else◌,
}
use vigil_rs.Plan.Config.{Override, replace, merge, Layer, Plan}
use vigil_rs.Plan.Merge.{merge_service, merge_check, merge_alert}
use vigil_rs.Plan.Layers.{merged}
use vigil_rs.Plan.Precedence.{last_given}

abbrev pub with_entry : {C : Type 0} → Option C → List C → List C
with_entry none es = es
with_entry (some e) es = e ∷ es

-- The entries of a name in the layers that have it, in their order.
abbrev pub given : {C : Type 0} → String → List (Map C) → List C
given name [] = []
given name (layer ∷ layers) = with_entry (lookup name layer) (given name layers)

abbrev pub is_replace : Override → Bool
is_replace replace = true
is_replace merge = false

-- An entry that replaces is among them.
abbrev pub any_replaces : {C : Type 0} → (C → Override) → List C → Bool
any_replaces mode [] = false
any_replaces mode (e ∷ es) = is_replace (mode e) || any_replaces mode es

-- The entries from the last one on that replaces, or all where none does.
abbrev pub since_replace : {C : Type 0} → (C → Override) → List C → List C
since_replace mode [] = []
since_replace mode (e ∷ es) =
    let later = since_replace mode es in if any_replaces mode es then later else e ∷ es

-- Each entry laid over those before it.
abbrev pub laid : {C : Type 0} → (C → C → C) → Option C → List C → Option C
laid over found [] = found
laid over none (e ∷ es) = laid over (some e) es
laid over (some existing) (e ∷ es) = laid over (some (over existing e)) es

-- What counts of a name: nothing before the last entry that replaces, and the others laid over it.
abbrev pub in_force : {C : Type 0} → (C → Override) → (C → C → C) → String → List (Map C) → Option C
in_force mode over name layers = laid over none (since_replace mode (given name layers))

module _ {C : Type 0} (mode : C → Override) (over : C → C → C) where
  -- Entries taken one by one, as the loop does.
  taken : Option C → List C → Option C
  taken found [] = found
  taken found (e ∷ es) = taken (some (merged mode over (mode e) found e)) es

-- What the plan holds of a name and of the queue.
pub record IsInForce {F : Type 0} (name : String) (layers : List (Layer F)) (plan : Plan F)
    : Type 0 where
  services :
      lookup name plan.services
      ≡ in_force (λ c. c.override_mode) merge_service name (map (λ l. l.services) layers)
  checks :
      lookup name plan.checks
      ≡ in_force (λ c. c.override_mode) merge_check name (map (λ l. l.checks) layers)
  alerts :
      lookup name plan.alerts
      ≡ in_force (λ c. c.override_mode) merge_alert name (map (λ l. l.alerts.entries) layers)
  queue_depth :
      plan.alert_queue_depth ≡ last_given none (map (λ l. l.alerts.max_queue_depth) layers)
  queue_time :
      plan.alert_max_queue_time ≡ last_given none (map (λ l. l.alerts.max_queue_time) layers)
