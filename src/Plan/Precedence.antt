-- ===== src/Plan/Precedence.antt =====
-- The loop of `Plan::from_layers`, crates/vigil-types/src/plan/layer.rs, for one name.
use vigil_rs.Prelude.{
  String, true, ◌≡◌, refl, ◌∙◌, ap, Option, none, some, List, [], ◌∷◌, Map, lookup, contains-keys,
  lookup-insert, has_distinct_keys, All, arith, eq_iff, or_else, map,
}
use vigil_rs.Plan.Config.{Override, Layer, Plan}
use vigil_rs.Plan.Merge.{merge_service, merge_check, merge_alert}
use vigil_rs.Plan.Layers.{merged, add_entry, add_entries, add_layer, add_all}

module _ {C : Type 0} (mode : C → Override) (merge_into : C → C → C) where
  -- A layer without the name changes nothing.
  abbrev pub overlay : Option C → Option C → Option C
  overlay found none = found
  overlay found (some entry) = some (merged mode merge_into (mode entry) found entry)

  -- One name, through the layers.
  abbrev pub resolve : String → Option C → List (Map C) → Option C
  resolve name found [] = found
  resolve name found (layer ∷ layers) = resolve name (overlay found (lookup name layer)) layers

  lookup-add_entries :
      (name : String) (m layer : Map C)
      → has_distinct_keys layer ≡ true
      → lookup name (add_entries mode merge_into m layer)
        ≡ overlay (lookup name m) (lookup name layer)
  unfolding add_entries lookup has_distinct_keys
  lookup-add_entries name m [] h = refl
  lookup-add_entries name m ((k, entry) ∷ layer) h = ground (
    arith,
    eq_iff k name,
    lookup-insert k name (merged mode merge_into (mode entry) (lookup k m) entry) m,
    contains-keys k layer,
    lookup-add_entries name (add_entry mode merge_into m k entry) layer,
  )

-- A layer's maps have distinct keys, as every map of the source has.
pub record IsLayer {F : Type 0} (layer : Layer F) : Type 0 where
  pub services : has_distinct_keys layer.services ≡ true
  pub checks : has_distinct_keys layer.checks ≡ true
  pub alerts : has_distinct_keys layer.alerts.entries ≡ true

-- The last value that a layer gives.
abbrev pub last_given {ℓ} : {A : Type ℓ} → Option A → List (Option A) → Option A
last_given found [] = found
last_given found (none ∷ later) = last_given found later
last_given found (some a ∷ later) = last_given (some a) later

last_given-or_else {ℓ} :
    {A : Type ℓ} (found given : Option A) (later : List (Option A))
    → last_given (or_else given found) later ≡ last_given found (given ∷ later)
last_given-or_else found none later = refl
last_given-or_else found (some a) later = refl

module _ {F : Type 0} (name : String) where
  -- What the plan says of a name and of the queue, beginning with `p`.
  pub record IsResolved (p : Plan F) (layers : List (Layer F)) (plan : Plan F) : Type 0 where
    pub services :
        lookup name plan.services
        ≡ resolve
            (λ c. c.override_mode)
            merge_service
            name
            (lookup name p.services)
            (map (λ l. l.services) layers)
    pub checks :
        lookup name plan.checks
        ≡ resolve
            (λ c. c.override_mode)
            merge_check
            name
            (lookup name p.checks)
            (map (λ l. l.checks) layers)
    pub alerts :
        lookup name plan.alerts
        ≡ resolve
            (λ c. c.override_mode)
            merge_alert
            name
            (lookup name p.alerts)
            (map (λ l. l.alerts.entries) layers)
    pub queue_depth :
        plan.alert_queue_depth
        ≡ last_given p.alert_queue_depth (map (λ l. l.alerts.max_queue_depth) layers)
    pub queue_time :
        plan.alert_max_queue_time
        ≡ last_given p.alert_max_queue_time (map (λ l. l.alerts.max_queue_time) layers)

  pub add_all-IsResolved :
      (p : Plan F) (layers : List (Layer F))
      → All IsLayer layers
      → IsResolved p layers (add_all p layers)
  unfolding add_all
  add_all-IsResolved p [] h = record {
    services = refl;
    checks = refl;
    alerts = refl;
    queue_depth = refl;
    queue_time = refl;
  }
  add_all-IsResolved p (layer ∷ layers) h =
      let rest = add_all-IsResolved (add_layer p layer) layers h.1 in
      record {
        services =
            rest.services
            ∙ ap
                (λ found.
                  resolve (λ c. c.override_mode) merge_service name found
                    (map (λ l. l.services) layers))
                (lookup-add_entries (λ c. c.override_mode) merge_service name p.services
                  layer.services h.0.services);
        checks =
            rest.checks
            ∙ ap
                (λ found.
                  resolve (λ c. c.override_mode) merge_check name found
                    (map (λ l. l.checks) layers))
                (lookup-add_entries (λ c. c.override_mode) merge_check name p.checks layer.checks
                  h.0.checks);
        alerts =
            rest.alerts
            ∙ ap
                (λ found.
                  resolve (λ c. c.override_mode) merge_alert name found
                    (map (λ l. l.alerts.entries) layers))
                (lookup-add_entries (λ c. c.override_mode) merge_alert name p.alerts
                  layer.alerts.entries h.0.alerts);
        queue_depth =
            rest.queue_depth
            ∙ last_given-or_else p.alert_queue_depth layer.alerts.max_queue_depth
                (map (λ l. l.alerts.max_queue_depth) layers);
        queue_time =
            rest.queue_time
            ∙ last_given-or_else p.alert_max_queue_time layer.alerts.max_queue_time
                (map (λ l. l.alerts.max_queue_time) layers);
      }
