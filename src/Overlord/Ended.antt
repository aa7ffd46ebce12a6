-- ===== src/Overlord/Ended.antt =====
-- However the main loop ends, every service and its actor have been told to stop.
use vigil_rs.Prelude.{
  ℕ, ◌≡◌, refl, true, Option, none, some, List, [], ◌∷◌, String, Option-cases, inl, inr,
}
use vigil_rs.Alert.{CheckStatus}
use vigil_rs.Overlord.Events.{handle_check_event, handle_svc_event}
use vigil_rs.Service.{Event}
use vigil_rs.Prelude.{if_both}
use vigil_rs.Overlord.Main.{
  Cmd, services, get_services, get_checks, get_alerts, get_changes, get_system_info, reload,
  shutdown as shutdown_cmd, signal, Ending, Daemon, Surroundings, handle_cmd, answer_with, finish,
  after_event, after_check_event, take_check_event, take_event, take_command, round, Step, takes,
  commanded, closes, event_comes, check_event_comes, Reach, here, later, start,
}
use vigil_rs.Overlord.State.{Overlord}
use vigil_rs.Overlord.View.{has}
use vigil_rs.Overlord.Stopped.{IsStopped, is_shut, stop_all-IsStopped, check_event-IsStopped}

module _ {F E : Type 0} (w : Surroundings F E) where
  -- Where the loop has ended, every service has been shut down.
  abbrev pub IsEndStopped : Daemon F E → Type 0
  IsEndStopped d = (ending : Ending) → d.ended ≡ some ending → IsStopped d.overlord

  handle_cmd-IsEndStopped :
      (cmd : Cmd) (d : Daemon F E) → d.ended ≡ none → IsEndStopped (handle_cmd w cmd d)
  unfolding handle_cmd finish answer_with
  handle_cmd-IsEndStopped (services action names) d n ending e = cc
  handle_cmd-IsEndStopped (get_services names) d n ending e = cc
  handle_cmd-IsEndStopped (get_checks names) d n ending e = cc
  handle_cmd-IsEndStopped (get_alerts names) d n ending e = cc
  handle_cmd-IsEndStopped (get_changes id) d n ending e = cc
  handle_cmd-IsEndStopped get_system_info d n ending e = cc
  handle_cmd-IsEndStopped reload d n ending e = cc
  handle_cmd-IsEndStopped (signal s) d n ending e = cc
  handle_cmd-IsEndStopped shutdown_cmd d n ending e = stop_all-IsStopped w.host d.overlord

  after_event-IsEndStopped :
      (r : Option ℕ × Overlord F) (d : Daemon F E)
      → d.ended ≡ none
      → IsEndStopped (after_event w r d)
  unfolding after_event
  after_event-IsEndStopped (none, o) d n ending e = cc
  after_event-IsEndStopped (some code, o) d n ending e = stop_all-IsStopped w.host o

  after_check_event-IsEndStopped :
      (r : Option ℕ × Overlord F) (d : Daemon F E)
      → ((code : ℕ) → r ≡ (some code, r.1) → IsStopped r.1)
      → d.ended ≡ none
      → IsEndStopped (after_check_event w r d)
  unfolding after_check_event
  after_check_event-IsEndStopped (none, o) d h n ending e = cc
  after_check_event-IsEndStopped (some code, o) d h n ending e = h code refl

  take_check_event-IsEndStopped :
      (events : List (String × CheckStatus)) (d : Daemon F E)
      → d.ended ≡ none
      → IsEndStopped (take_check_event w events d)
  unfolding take_check_event
  take_check_event-IsEndStopped [] d n = λ ending e. cc
  take_check_event-IsEndStopped ((check, status) ∷ rest) d n =
      after_check_event-IsEndStopped (handle_check_event w.host check status d.overlord) _
        (λ code same. check_event-IsStopped w.host check status d.overlord _ code same) n

  take_event-IsEndStopped :
      (events : List Event) (d : Daemon F E) → d.ended ≡ none → IsEndStopped (take_event w events d)
  unfolding take_event
  take_event-IsEndStopped [] d n = take_check_event-IsEndStopped d.check_events d n
  take_event-IsEndStopped (e ∷ rest) d n =
      after_event-IsEndStopped (handle_svc_event w.host e d.overlord) _ n

  take_command-IsEndStopped :
      (commands : List Cmd) (d : Daemon F E)
      → d.ended ≡ none
      → IsEndStopped (take_command w commands d)
  unfolding take_command finish
  take_command-IsEndStopped [] d n =
      if_both IsEndStopped d.is_closed (finish w d) (take_event w d.events d)
        (λ ending e. stop_all-IsStopped w.host d.overlord) (take_event-IsEndStopped d.events d n)
  take_command-IsEndStopped (cmd ∷ rest) d n =
      handle_cmd-IsEndStopped cmd (record d { commands = rest }) n

  round-IsEndStopped : (d : Daemon F E) → IsEndStopped d → IsEndStopped (round w d)
  unfolding round
  round-IsEndStopped d h = elim (Option-cases d.ended) [
    | inl e ↦ rw (round, e) (take_command-IsEndStopped d.commands d e)
    | inr (ending, e) ↦ rw (round, e) h
  ]

  Step-IsEndStopped : {d d' : Daemon F E} → Step w d d' → IsEndStopped d → IsEndStopped d'
  Step-IsEndStopped {d} takes h = round-IsEndStopped d h
  Step-IsEndStopped (commanded cmd) h = h
  Step-IsEndStopped closes h = h
  Step-IsEndStopped (event_comes e) h = h
  Step-IsEndStopped (check_event_comes e) h = h

  Reach-IsEndStopped : {d d' : Daemon F E} → Reach w d d' → IsEndStopped d → IsEndStopped d'
  Reach-IsEndStopped here h = h
  Reach-IsEndStopped (later path step) h = Step-IsEndStopped step (Reach-IsEndStopped path h)

  -- Whatever commands and events come, and in whatever order: where the main loop has ended, by a
  -- command, with its channel, or by an exit that a service or a check asked for, every service of
  -- the overlord has been sent a shutdown.
  pub start-Reach-IsStopped :
      (o : Overlord F) {d : Daemon F E} {ending : Ending}
      → Reach w (start w o) d
      → d.ended ≡ some ending
      → (name : String) → has d.overlord name ≡ true
      → is_shut name d.overlord.sent ≡ true
  unfolding start IsStopped
  start-Reach-IsStopped o {ending} path e = Reach-IsEndStopped path (λ ending e. cc) ending e
