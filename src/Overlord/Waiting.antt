-- ===== src/Overlord/Waiting.antt =====
-- No service is left waiting whose dependencies run.
use vigil_rs.Prelude.{
  Bool, true, false, not, ◌&&◌, ◌≡◌, refl, ◌∙◌, sym, ap, List, [], ◌∷◌, ◌++◌, String, Map, arith,
  all, contains, is_empty, Bool-cases, inl, inr, lookup, none, some,
}
use vigil_rs.Plan.{Plan, ServiceConfig}
use vigil_rs.Service.{
  ServiceState, is_running, Event, state_changed, process_exited, daemon_shutdown,
}
use vigil_rs.Overlord.State.{Overlord, Host}
use vigil_rs.Overlord.Ordering.{runs, is_ready, after_deps_running, before_ok}
use vigil_rs.Overlord.Lifecycle.{autostart, try_start_pending}
use vigil_rs.Overlord.Events.{
  observe, cascade, unblock, handle_svc_event, is_down_for_good, dependents,
}
use vigil_rs.Overlord.View.{IsSameView, after_deps_running-IsSameView}
use vigil_rs.Overlord.Autostart.{
  autostart-IsAutostarted, try_start_pending-IsReleased, try_start_pending-IsSameView,
}
use vigil_rs.Overlord.Cascade.{stop_each-IsStopped, observe-IsObserved, runs-observe}

all_mono :
    (f g : String → Bool) (names : List String)
    → ((n : String) → f n ≡ true → g n ≡ true)
    → all f names ≡ true
    → all g names ≡ true
all_mono f g [] h each = refl
all_mono f g (n ∷ rest) h each = ground (arith, h n, all_mono f g rest h)

empty-contains :
    (names : List String) (n : String) → is_empty names ≡ true → contains names n ≡ false
unfolding contains
empty-contains [] n h = refl
empty-contains (m ∷ rest) n h = ground arith

module _ {F : Type 0} where
  -- Each waiting service has a dependency that does not run.
  abbrev pub IsWaiting : Overlord F → Type 0
  IsWaiting o =
      (n : String) → contains o.pending_autostart n ≡ true → after_deps_running o n ≡ false

  before_ok_mono :
      (f g : String → Bool) (name : String) (plan : Map (ServiceConfig F))
      → ((n : String) → f n ≡ true → g n ≡ true)
      → before_ok f name plan ≡ true
      → before_ok g name plan ≡ true
  unfolding before_ok
  before_ok_mono f g name [] h each = refl
  before_ok_mono f g name ((n, c) ∷ rest) h each =
      ground (arith, h n, before_ok_mono f g name rest h)

  -- The fewer services run, the fewer are ready.
  is_ready_mono :
      (plan : Plan F) (f g : String → Bool) (name : String)
      → ((n : String) → f n ≡ true → g n ≡ true)
      → is_ready plan f name ≡ true
      → is_ready plan g name ≡ true
  unfolding is_ready
  is_ready_mono plan f g name h =
      elim (lookup name plan.services)
        as (λ found.
          elim found [
            | none ↦ true
            | some config ↦
                all f (config.after ++ config.requires) && before_ok f name plan.services
          ]
            ≡ true
          → elim found [
            | none ↦ true
            | some config ↦
                all g (config.after ++ config.requires) && before_ok g name plan.services
          ]
            ≡ true) [
              | none ↦ λ ready. refl
              | some config ↦ λ ready. ground (
                arith,
                all_mono f g (config.after ++ config.requires) h,
                before_ok_mono f g name plan.services h,
              )
            ]

  same-IsWaiting :
      (o o' : Overlord F)
      → IsSameView o o'
      → o'.pending_autostart ≡ o.pending_autostart
      → IsWaiting o
      → IsWaiting o'
  same-IsWaiting o o' view pending waiting n there =
      after_deps_running-IsSameView o o' view n
      ∙ waiting n (ap (λ names. contains names n) (sym pending) ∙ there)

  -- A report of a state that is not running makes no service ready.
  observe-IsWaiting :
      (name : String) (state : ServiceState) (o : Overlord F)
      → is_running state ≡ false
      → IsWaiting o
      → IsWaiting (observe name state o)
  unfolding after_deps_running
  observe-IsWaiting name state o quiet waiting n there =
      let same = observe-IsObserved name state o in
      let seen = observe name state o in
      let less =
        is_ready_mono o.plan (runs seen.services) (runs o.services) n
          (λ m running. ground (arith, runs-observe name state o m quiet)) in
      let not_ready = waiting n (ap (λ names. contains names n) (sym same.pending) ∙ there) in
      let planned : after_deps_running seen n ≡ is_ready o.plan (runs seen.services) n =
        ap (λ p. is_ready p (runs seen.services) n) same.plan in
      ground (arith, less, not_ready, planned)

  -- After the retry nothing that waits is ready, whatever waited before.
  try_start_pending-IsWaiting : (h : Host F) (o : Overlord F) → IsWaiting (try_start_pending h o)
  try_start_pending-IsWaiting h o n there =
      let view = try_start_pending-IsSameView h o in
      let left = (try_start_pending-IsReleased h o).1 n in
      ground (arith, there, left, after_deps_running-IsSameView o (try_start_pending h o) view n)

  unblock-IsWaiting :
      (h : Host F) (state : ServiceState) (o : Overlord F)
      → (is_running state ≡ false → IsWaiting o)
      → IsWaiting (unblock h state o)
  unfolding unblock
  unblock-IsWaiting h state o before =
      elim (Bool-cases (is_running state && not (is_empty o.pending_autostart))) [
        | inl retry ↦ rw (unblock, retry) (try_start_pending-IsWaiting h o)
        | inr idle ↦
            rw (unblock, idle)
              (elim (Bool-cases (is_running state)) [
                | inr quiet ↦ before quiet
                | inl running ↦ λ n there.
                    ground (arith, idle, running, there, empty-contains o.pending_autostart n)
              ])
      ]

  cascade-IsWaiting :
      (h : Host F) (name : String) (state : ServiceState) (o : Overlord F)
      → IsWaiting o
      → IsWaiting (cascade h name state o)
  unfolding cascade
  cascade-IsWaiting h name state o waiting =
      let r = stop_each-IsStopped h (dependents o.services name o.plan.services) o in
      elim (Bool-cases (is_down_for_good state)) [
        | inl gone ↦ rw (cascade, gone) (same-IsWaiting o _ r.view r.pending waiting)
        | inr stays ↦ rw (cascade, stays) waiting
      ]

  -- The invariant of the deferred start: if every waiting service has a dependency that does not run by
  -- the reports so far, then so it is after the overlord has handled any event of a service. A service
  -- whose dependencies all run is never left waiting.
  pub handle_svc_event-IsWaiting :
      (h : Host F) (e : Event) (o : Overlord F) → IsWaiting o → IsWaiting (handle_svc_event h e o).1
  unfolding handle_svc_event
  handle_svc_event-IsWaiting h e o waiting =
      elim e.kind
        as (λ kind.
          IsWaiting (handle_svc_event h (record { service = e.service; kind = kind }) o).1) [
            | state_changed state ↦
                let seen = observe e.service state o in
                cascade-IsWaiting h e.service state (unblock h state seen) (
                  unblock-IsWaiting h state seen
                    (λ quiet. observe-IsWaiting e.service state o quiet waiting))
            | process_exited success ↦ waiting
            | daemon_shutdown code ↦ waiting
          ]

  -- Autostart establishes the invariant if nothing waited before, as after a start and after a reload.
  pub autostart-IsWaiting :
      (h : Host F) (o : Overlord F) → o.pending_autostart ≡ [] → IsWaiting (autostart h o)
  unfolding contains
  autostart-IsWaiting h o none_waits n there =
      let r = autostart-IsAutostarted h o in
      ground (
        arith,
        there,
        none_waits,
        r.pending n,
        after_deps_running-IsSameView o (autostart h o) r.view n,
      )
