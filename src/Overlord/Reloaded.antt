-- ===== src/Overlord/Reloaded.antt =====
-- The services after a reload.
use vigil_rs.Prelude.{
  Bool, not, ◌&&◌, ◌||◌, ◌≡◌, refl, ◌∙◌, ap, List, [], ◌∷◌, String, Map, if◌then◌else◌, arith,
  contains, contains-keys, keys, str_eq, eq_iff, Option-cases, inl, inr, lookup, insert, remove,
  or_else, lookup-insert, lookup-remove, Option, none, is_some,
}
use vigil_rs.Plan.{Plan, ServiceConfig, CheckConfig}
use vigil_rs.Overlord.State.{Overlord, ServiceEntry, Host, note}
use vigil_rs.Service.{new, inactive}
use vigil_rs.Service.Fixed.{config-new}
use vigil_rs.Overlord.Lifecycle.{shut_down}
use vigil_rs.Overlord.Reload.{
  sync_services, sync_check, sync_checks, start_check, sync_actors, removed, drop_services,
  drop_checks, install, replan_actors, new_sender,
}
use vigil_rs.Overlord.View.{has, config_of}
use vigil_rs.Overlord.Autostart.{contains-keep, autostart-IsAutostarted}

-- What is left of these services when those that the plan lacks are dropped.
contains-removed :
    {V W : Type 0} (there : Map V) (current : Map W) (n : String)
    → contains (removed there current) n
      ≡ (is_some (lookup n there) && not (is_some (lookup n current)))
contains-removed there current n = ground (
  arith,
  contains-keep (λ m. not (contains (keys current) m)) (keys there) n,
  contains-keys n there,
  contains-keys n current,
)

module _ {F : Type 0} where
  sync_services-lookup :
      (plan : Map (ServiceConfig F)) (services : Map (ServiceEntry F)) (n : String)
      → is_some (lookup n (sync_services plan services))
        ≡ (is_some (lookup n services) || is_some (lookup n plan))
  unfolding sync_services lookup
  sync_services-lookup [] services n = ground arith
  sync_services-lookup ((name, c) ∷ rest) services n =
      let fresh : ServiceEntry F = record {
        actor = new name c;
        state = inactive;
        startup = c.startup;
      } in
      ground (
        arith,
        sync_services-lookup rest services n,
        sync_services-lookup rest (insert name fresh services) n,
        lookup-insert name n fresh services,
        eq_iff name n,
      )

  -- The two agree on the plan and the services.
  record IsSameServices (o o' : Overlord F) : Type 0 where
    plan : o'.plan ≡ o.plan
    services : o'.services ≡ o.services

  sync_check-IsSameServices :
      (same : CheckConfig → CheckConfig → Bool) (name : String) (config : CheckConfig)
      (o : Overlord F)
      → IsSameServices o (sync_check same name config o)
  unfolding sync_check start_check note
  sync_check-IsSameServices same name config o = record {
    plan = ground arith;
    services = ground arith;
  }

  sync_checks-IsSameServices :
      (same : CheckConfig → CheckConfig → Bool) (checks : Map CheckConfig) (o : Overlord F)
      → IsSameServices o (sync_checks same checks o)
  unfolding sync_checks
  sync_checks-IsSameServices same [] o = record { plan = refl; services = refl }
  sync_checks-IsSameServices same ((name, config) ∷ rest) o =
      let one = sync_check-IsSameServices same name config o in
      let all = sync_checks-IsSameServices same rest (sync_check same name config o) in
      record { plan = all.plan ∙ one.plan; services = all.services ∙ one.services }

  drop_checks-IsSameServices :
      (names : List String) (o : Overlord F) → IsSameServices o (drop_checks names o)
  unfolding drop_checks note
  drop_checks-IsSameServices [] o = record { plan = refl; services = refl }
  drop_checks-IsSameServices (name ∷ rest) o =
      let all = drop_checks-IsSameServices rest _ in
      record { plan = all.plan; services = all.services }

  shut_down-keeps :
      (name : String) (o : Overlord F)
      → let o' = shut_down name o in (o'.plan ≡ o.plan) × ((n : String) → has o' n ≡ has o n)
  unfolding shut_down note has
  shut_down-keeps name o = elim (Option-cases (lookup name o.services)) [
    | inl e ↦ (ground (arith, e), λ n. ground (arith, e))
    | inr (entry, e) ↦ (ground (arith, e), λ n. ground (arith, e))
  ]

  drop_services-lookup :
      (names : List String) (o : Overlord F)
      → let o' = drop_services names o in
        (o'.plan ≡ o.plan) × ((n : String) → has o' n ≡ (has o n && not (contains names n)))
  unfolding drop_services contains has
  drop_services-lookup [] o = (refl, λ n. ground arith)
  drop_services-lookup (name ∷ rest) o =
      let o' = shut_down name o in
      let one = shut_down-keeps name o in
      let all = drop_services-lookup rest (record o' { services = remove name o'.services }) in
      (all.0 ∙ one.0, λ n. ground (arith, all.1 n, one.1 n, lookup-remove name n o'.services))

  replan_actors-services :
      (same : CheckConfig → CheckConfig → Bool) (plan : Plan F) (o : Overlord F)
      → let o' = replan_actors same plan o in
        (o'.plan ≡ plan) × ((n : String) → has o' n ≡ is_some (lookup n plan.services))
  unfolding replan_actors sync_actors has
  replan_actors-services same plan o =
      let sender = new_sender plan o.alert_sender in
      let actors = sync_services plan.services o.services in
      let planned : Overlord F = record o {
        plan = plan;
        alert_sender = sender;
        services = actors;
      } in
      let checked = sync_checks-IsSameServices same plan.checks planned in
      let synced : Overlord F = record (sync_checks same plan.checks planned) {
        pending_autostart = [];
      } in
      let gone = removed synced.services plan.services in
      let left = drop_services-lookup gone synced in
      let without = drop_services gone synced in
      let last = drop_checks-IsSameServices (removed without.checks plan.checks) without in
      let there : (n : String) → has synced n ≡ is_some (lookup n actors) =
        λ n. ap (λ services. is_some (lookup n services)) checked.services in
      (
        last.plan ∙ left.0 ∙ checked.plan,
        λ n.
            ap (λ services. is_some (lookup n services)) last.services
            ∙ ground (
              arith,
              left.1 n,
              there n,
              contains-removed synced.services plan.services n,
              sync_services-lookup plan.services o.services n,
            ),
      )

  -- An actor that is there stays; a service without one gets one with its configuration.
  config_of-sync_services :
      (plan : Map (ServiceConfig F)) (services : Map (ServiceEntry F)) (n : String)
      → config_of (sync_services plan services) n ≡ or_else (config_of services n) (lookup n plan)
  unfolding sync_services lookup config_of
  config_of-sync_services [] services n = ground arith
  config_of-sync_services ((name, c) ∷ rest) services n =
      let fresh : ServiceEntry F = record {
        actor = new name c;
        state = inactive;
        startup = c.startup;
      } in
      ground (
        arith,
        config_of-sync_services rest services n,
        config_of-sync_services rest (insert name fresh services) n,
        lookup-insert name n fresh services,
        config-new name c,
        eq_iff name n,
      )

  config_of-shut_down :
      (name : String) (o : Overlord F) (n : String)
      → config_of (shut_down name o).services n ≡ config_of o.services n
  unfolding shut_down note config_of
  config_of-shut_down name o n = elim (Option-cases (lookup name o.services)) [
    | inl e ↦ ground (arith, e)
    | inr (entry, e) ↦ ground (arith, e)
  ]

  config_of-remove :
      (name : String) (services : Map (ServiceEntry F)) (n : String)
      → config_of (remove name services) n ≡ (if str_eq name n then none else config_of services n)
  unfolding config_of
  config_of-remove name services n = ground (arith, lookup-remove name n services)

  config_of-drop_services :
      (names : List String) (o : Overlord F) (n : String)
      → config_of (drop_services names o).services n
        ≡ (if contains names n then none else config_of o.services n)
  unfolding drop_services contains
  config_of-drop_services [] o n = refl
  config_of-drop_services (name ∷ rest) o n =
      let o' = shut_down name o in
      ground (
        arith,
        config_of-drop_services rest (record o' { services = remove name o'.services }) n,
        config_of-remove name o'.services n,
        config_of-shut_down name o n,
      )

  is_some-config_of :
      (services : Map (ServiceEntry F)) (n : String)
      → is_some (lookup n services) ≡ is_some (config_of services n)
  unfolding config_of
  is_some-config_of services n = ground arith

  -- The configuration that an actor has after a reload: the one it had, if it was there.
  abbrev pub config_after : Map (ServiceEntry F) → Plan F → String → Option (ServiceConfig F)
  config_after services plan n =
      if is_some (lookup n plan.services)
      then or_else (config_of services n) (lookup n plan.services)
      else none

  config_of-replan_actors :
      (same : CheckConfig → CheckConfig → Bool) (plan : Plan F) (o : Overlord F) (n : String)
      → config_of (replan_actors same plan o).services n ≡ config_after o.services plan n
  unfolding replan_actors sync_actors
  config_of-replan_actors same plan o n =
      let sender = new_sender plan o.alert_sender in
      let actors = sync_services plan.services o.services in
      let planned : Overlord F = record o {
        plan = plan;
        alert_sender = sender;
        services = actors;
      } in
      let checked = sync_checks-IsSameServices same plan.checks planned in
      let synced : Overlord F = record (sync_checks same plan.checks planned) {
        pending_autostart = [];
      } in
      let gone = removed synced.services plan.services in
      let without = drop_services gone synced in
      let last = drop_checks-IsSameServices (removed without.checks plan.checks) without in
      ap (λ services. config_of services n) last.services
      ∙ ground (
        arith,
        config_of-drop_services gone synced n,
        contains-removed synced.services plan.services n,
        is_some-config_of synced.services n,
        ap (λ services. config_of services n) checked.services,
        config_of-sync_services plan.services o.services n,
      )

  -- After a reload that reads a plan, the overlord has that plan, and an actor for exactly the services
  -- of the plan. The actor of a service that had one before goes on with the configuration it was made
  -- with, whatever the new plan says of the service; a new actor has the plan's configuration.
  pub install-services :
      (same : CheckConfig → CheckConfig → Bool) (h : Host F) (plan : Plan F) (o : Overlord F)
      → let o' = install same h plan o in
        (o'.plan ≡ plan)
        × ((n : String) → has o' n ≡ is_some (lookup n plan.services))
        × ((n : String) → config_of o'.services n ≡ config_after o.services plan n)
  unfolding install
  install-services same h plan o =
      let r = replan_actors-services same plan o in
      let view = (autostart-IsAutostarted h (replan_actors same plan o)).view in
      (
        view.plan ∙ r.0,
        λ n. view.there n ∙ r.1 n,
        λ n. view.config n ∙ config_of-replan_actors same plan o n,
      )
