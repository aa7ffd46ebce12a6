-- ===== src/Overlord/Cascade.antt =====
-- The stop of the services that require one that is down for good.
use vigil_rs.Prelude.{
  false, not, ◌&&◌, ◌≡◌, refl, ◌∙◌, List, [], ◌∷◌, String, Map, if◌then◌else◌, arith, lookup,
  contains, str_eq, lookup-insert, eq_iff, Option-cases, inl, inr,
}
use vigil_rs.Plan.{ServiceConfig}
use vigil_rs.Service.{ServiceState, is_running, state_changed}
use vigil_rs.Overlord.State.{Overlord, ServiceEntry, Host, Sent, stop, svc_cmd, command}
use vigil_rs.Overlord.Ordering.{runs}
use vigil_rs.Overlord.Events.{
  observe, dependents, stop_each, cascade, unblock, handle_svc_event, is_down_for_good,
}
use vigil_rs.Overlord.View.{
  IsSameView, IsSameView-refl, IsSameView-trans, svc_cmd-IsCommanded, sent_to, has,
}

-- the services of the plan that require this one
abbrev pub requirers : {F : Type 0} → String → Map (ServiceConfig F) → List String
requirers name [] = []
requirers name ((dependent, c) ∷ rest) =
    if contains c.requires name then dependent ∷ requirers name rest else requirers name rest

module _ {F : Type 0} where
  -- Stops to each of the names.
  pub record IsStopped (names : List String) (o o' : Overlord F) : Type 0 where
    pub view : IsSameView o o'
    pub pending : o'.pending_autostart ≡ o.pending_autostart
    pub sent : o'.sent ≡ sent_to stop (has o) names o.sent

  pub stop_each-IsStopped :
      (h : Host F) (names : List String) (o : Overlord F) → IsStopped names o (stop_each h names o)
  unfolding stop_each
  stop_each-IsStopped h [] o = record { view = IsSameView-refl o; pending = refl; sent = refl }
  stop_each-IsStopped h (name ∷ rest) o =
      let c = svc_cmd-IsCommanded h stop name o in
      let r = stop_each-IsStopped h rest (svc_cmd h stop name o).1 in
      let there : has (svc_cmd h stop name o).1 ≡ has o = λ i n. c.view.there n i in
      record {
        view = IsSameView-trans c.view r.view;
        pending = r.pending ∙ c.pending;
        sent = r.sent ∙ (λ i. sent_to stop (there i) rest (c.sent i));
      }

  runs-has : (o : Overlord F) (n : String) → has o n ≡ false → runs o.services n ≡ false
  unfolding runs has
  runs-has o n absent = ground (arith, absent)

  -- Of the services to stop, those that run exist.
  sent_to-dependents :
      (o : Overlord F) (name : String) (plan : Map (ServiceConfig F)) (sent : List Sent)
      → sent_to stop (has o) (dependents o.services name plan) sent
        ≡ sent_to stop (runs o.services) (requirers name plan) sent
  unfolding dependents
  sent_to-dependents o name [] sent = refl
  sent_to-dependents o name ((n, c) ∷ rest) sent = ground (
    arith,
    runs-has o n,
    sent_to-dependents o name rest sent,
    sent_to-dependents o name rest (command n stop ∷ sent),
  )

  pub runs-observe :
      (name : String) (state : ServiceState) (o : Overlord F) (n : String)
      → is_running state ≡ false
      → runs (observe name state o).services n ≡ (not (str_eq name n) && runs o.services n)
  unfolding runs observe
  runs-observe name state o n quiet = elim (Option-cases (lookup name o.services)) [
    | inl e ↦ ground (arith, e, eq_iff name n)
    | inr (entry, e) ↦
        let entry' : ServiceEntry F = record entry { state = state } in
        ground (arith, e, eq_iff name n, lookup-insert name n entry' o.services)
  ]

  -- A report changes the snapshots only.
  pub record IsObserved (o o' : Overlord F) : Type 0 where
    pub plan : o'.plan ≡ o.plan
    pub pending : o'.pending_autostart ≡ o.pending_autostart
    pub sent : o'.sent ≡ o.sent

  pub observe-IsObserved :
      (name : String) (state : ServiceState) (o : Overlord F) → IsObserved o (observe name state o)
  unfolding observe
  observe-IsObserved name state o = elim (Option-cases (lookup name o.services)) [
    | inl e ↦ rw (observe, e) (record { plan = refl; pending = refl; sent = refl })
    | inr (entry, e) ↦ rw (observe, e) (record { plan = refl; pending = refl; sent = refl })
  ]

  cascade-sent :
      (h : Host F) (name : String) (state : ServiceState) (o : Overlord F)
      → (cascade h name state o).sent ≡ (
          if is_down_for_good state
          then sent_to stop (runs o.services) (requirers name o.plan.services) o.sent
          else o.sent)
  unfolding cascade
  cascade-sent h name state o =
      let r = stop_each-IsStopped h (dependents o.services name o.plan.services) o in
      ground (arith, r.sent, sent_to-dependents o name o.plan.services o.sent)

  -- When a service reports a state that is not running, the overlord sends a stop, in the plan's order,
  -- to the other services that list it in `requires` and whose last reported state is
  -- running, if the state is inactive or error; it sends nothing if it is backoff or stopping.
  pub handle_svc_event-sent :
      (h : Host F) (name : String) (state : ServiceState) (o : Overlord F)
      → is_running state ≡ false
      → (handle_svc_event h (record { service = name; kind = state_changed state }) o).1.sent ≡ (
          if is_down_for_good state
          then sent_to stop
              (λ n. not (str_eq name n) && runs o.services n)
              (requirers name o.plan.services)
              o.sent
          else o.sent)
  unfolding handle_svc_event unblock
  handle_svc_event-sent h name state o quiet =
      let seen = observe name state o in
      let same = observe-IsObserved name state o in
      let running : runs seen.services ≡ (λ n. not (str_eq name n) && runs o.services n) =
        λ i n. runs-observe name state o n quiet i in
      let idle : unblock h state seen ≡ seen = ground (arith, quiet) in
      rw idle (
        cascade-sent h name state seen ∙ λ i.
        if is_down_for_good state
        then sent_to stop (running i) (requirers name (same.plan i).services) (same.sent i)
        else same.sent i)
