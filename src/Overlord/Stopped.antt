-- ===== src/Overlord/Stopped.antt =====
-- What `stop_all` comes to: every service has been shut down.
use vigil_rs.Prelude.{
  ℕ, ◌≡◌, refl, ap, ◌∙◌, sym, Bool, true, false, ◌||◌, ◌&&◌, some, List, [], ◌∷◌, String, lookup,
  keys, contains, contains-keys, str_eq, eq_iff, arith, Option-cases, inl, inr,
}
use vigil_rs.Plan.{OnExit, restart, shutdown, failure_shutdown, success_shutdown, ignore}
use vigil_rs.Alert.{CheckStatus, up, down, handle_check_event as notify}
use vigil_rs.Overlord.Events.{act, actions_for, note_fires, handle_check_event}
use mathlib.Core.Path.{subst}
use vigil_rs.Overlord.State.{
  Overlord, Host, Sent, command, shutdown_service, shutdown_check, spawn_check, alert_fire, SvcCmd,
  stop, restart as restart_service, svc_cmd, note,
}
use vigil_rs.Overlord.Lifecycle.{shut_down, stop_actors, stop_checks, stop_all}
use vigil_rs.Overlord.View.{has, svc_cmd-IsCommanded}

-- the service's actor has been sent a shutdown
unfoldable pub is_shut : String → List Sent → Bool
is_shut name [] = false
is_shut name (shutdown_service n ∷ rest) = str_eq n name || is_shut name rest
is_shut name (command n c ∷ rest) = is_shut name rest
is_shut name (shutdown_check n ∷ rest) = is_shut name rest
is_shut name (spawn_check n s ∷ rest) = is_shut name rest
is_shut name (alert_fire n ∷ rest) = is_shut name rest

all_or :
    (a b c d : Bool)
    → (a && (b || c)) ≡ true
    → (a ≡ true → b ≡ true → d ≡ true)
    → ((a && c) ≡ true → d ≡ true)
    → d ≡ true
all_or a b c d h f g = ground arith

module _ {F : Type 0} where
  -- Every service that there is has been shut down.
  unfoldable pub IsStopped : Overlord F → Type 0
  IsStopped o = (name : String) → has o name ≡ true → is_shut name o.sent ≡ true

  svc_cmd-is_shut :
      (h : Host F) (cmd : SvcCmd) (name : String) (o : Overlord F) (n : String)
      → is_shut n (svc_cmd h cmd name o).1.sent ≡ is_shut n o.sent
  unfolding is_shut
  svc_cmd-is_shut h cmd name o n = ground (arith, (svc_cmd-IsCommanded h cmd name o).sent)

  -- After a shutdown of one service: the services are those that were there, and it is shut down.
  shut_down-is_shut :
      (name : String) (o : Overlord F) (n : String)
      → (has (shut_down name o) n ≡ has o n)
        × (is_shut n (shut_down name o).sent ≡ ((has o name && str_eq name n) || is_shut n o.sent))
  unfolding shut_down has note is_shut
  shut_down-is_shut name o n = elim (Option-cases (lookup name o.services)) [
    | inl e ↦ rw (shut_down, e) (refl, ground (arith, e))
    | inr (entry, e) ↦ rw (shut_down, e) (refl, ground (arith, e))
  ]

  stop_one :
      (h : Host F) (name : String) (o : Overlord F) (n : String)
      → let o' : Overlord F = shut_down name (svc_cmd h stop name o).1 in
        (has o' n ≡ has o n)
        × (is_shut n o.sent ≡ true → is_shut n o'.sent ≡ true)
        × (has o n ≡ true → str_eq name n ≡ true → is_shut n o'.sent ≡ true)
  stop_one h name o n =
      let there = (svc_cmd-IsCommanded h stop name o).view.there in
      let kept = svc_cmd-is_shut h stop name o n in
      let (same, shut) = shut_down-is_shut name (svc_cmd h stop name o).1 n in
      (
        same ∙ there n,
        λ e. shut ∙ ground (arith, kept, e),
        λ e f. shut ∙ ground (arith, there name, there n, eq_iff name n, e, f),
      )

  stop_actors-is_shut :
      (h : Host F) (names : List String) (o : Overlord F) (n : String)
      → (has (stop_actors h names o) n ≡ has o n)
        × ((has o n && contains names n) ≡ true → is_shut n (stop_actors h names o).sent ≡ true)
        × (is_shut n o.sent ≡ true → is_shut n (stop_actors h names o).sent ≡ true)
  unfolding stop_actors contains
  stop_actors-is_shut h [] o n = (refl, λ e. ground arith, λ e. e)
  stop_actors-is_shut h (name ∷ rest) o n =
      let (same, kept, shut) = stop_one h name o n in
      let (still, now, before) =
        stop_actors-is_shut h rest (shut_down name (svc_cmd h stop name o).1) n in
      (
        still ∙ same,
        λ e.
            all_or (has o n) (str_eq name n) (contains rest n) _ e (λ a b. before (shut a b))
              (λ a. now (ap (λ b. b && contains rest n) same ∙ a)),
        λ e. before (kept e),
      )

  stop_checks-sent :
      (names : List String) (o : Overlord F) (n : String)
      → (has (stop_checks names o) n ≡ has o n)
        × (is_shut n (stop_checks names o).sent ≡ is_shut n o.sent)
  unfolding stop_checks note has is_shut
  stop_checks-sent [] o n = (refl, refl)
  stop_checks-sent (name ∷ rest) o n = stop_checks-sent rest (note (shutdown_check name) o) n

  pub stop_all-IsStopped : (h : Host F) (o : Overlord F) → IsStopped (stop_all h o)
  unfolding stop_all IsStopped
  stop_all-IsStopped h o name there =
      let (same, shut) =
        stop_checks-sent (keys o.checks) (stop_actors h (keys o.services) o) name in
      let (still, now, before) = stop_actors-is_shut h (keys o.services) o name in
      let known : has o name ≡ true = sym (same ∙ still) ∙ there in
      shut ∙ now (unfold has in ground (arith, contains-keys name o.services, known))

  act-IsStopped :
      (h : Host F) (actions : List (String × OnExit)) (o o' : Overlord F) (code : ℕ)
      → act h actions o ≡ (some code, o')
      → IsStopped o'
  unfolding act
  act-IsStopped h [] o o' code e = cc
  act-IsStopped h ((name, restart) ∷ rest) o o' code e =
      act-IsStopped h rest (svc_cmd h restart_service name o).1 o' code e
  act-IsStopped h ((name, ignore) ∷ rest) o o' code e = act-IsStopped h rest o o' code e
  act-IsStopped h ((name, shutdown) ∷ rest) o o' code e =
      let same : stop_all h o ≡ o' = cc in subst IsStopped same (stop_all-IsStopped h o)
  act-IsStopped h ((name, success_shutdown) ∷ rest) o o' code e =
      let same : stop_all h o ≡ o' = cc in subst IsStopped same (stop_all-IsStopped h o)
  act-IsStopped h ((name, failure_shutdown) ∷ rest) o o' code e =
      let same : stop_all h o ≡ o' = cc in subst IsStopped same (stop_all-IsStopped h o)

  pub check_event-IsStopped :
      (h : Host F) (check : String) (status : CheckStatus) (o o' : Overlord F) (code : ℕ)
      → handle_check_event h check status o ≡ (some code, o')
      → IsStopped o'
  unfolding handle_check_event
  check_event-IsStopped h check up o o' code e = cc
  check_event-IsStopped h check down o o' code e =
      let (fired, sender) = notify check down o.alert_sender in
      let noted = note_fires fired (record o { alert_sender = sender }) in
      act-IsStopped h (actions_for check noted.plan.services) noted o' code e
