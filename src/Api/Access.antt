-- ===== src/Api/Access.antt =====
-- What the requests to crates/vigild/src/api/handlers/ may change, and for whom.
use vigil_rs.Prelude.{
  ◌≤◌, ◌≡◌, refl, sym, Bool, true, false, Bool-cases, inl, inr, Option, List, [], ◌∷◌, ◌++◌, All,
  arith, if_both, is_empty,
}
use mathlib.Core.List.{append-nil}
use vigil_rs.Identity.{
  IdentityAccess, read_access, write_access, admin_access, metrics_access, level, Checks, Request,
  caller, allows,
}
use vigil_rs.Identity.Granted.{IsAuthenticated, allows-IsAuthenticated}
use vigil_rs.Overlord.Main.{
  Cmd, Answer, Surroundings, Daemon, handle_cmd, services, reload, signal, shutdown, get_services,
  get_changes, get_checks, get_alerts, get_system_info,
}
use vigil_rs.Api.{
  AppState, Call, Response, router, system_info, get_metrics, replan, list_services, list_checks,
  list_alerts, list_identities, services_action, get_change, get_logs, daemon_action,
  add_identities, remove_identities, require, ask, system_info_get, metrics_get, replan_post,
  services_get, checks_get, alerts_get, identities_get, services_post, changes_get, logs_get,
  vigild_post, identities_post, identities_delete,
}

module _ {F E : Type 0} (w : Surroundings F E) where
  -- In whatever state the overlord takes it, the command is only a question.
  pub record IsQuery (cmd : Cmd) : Type 0 where
    overlord_stays : (d : Daemon F E) → (handle_cmd w cmd d).overlord ≡ d.overlord
    changes_stay : (d : Daemon F E) → (handle_cmd w cmd d).changes ≡ d.changes
    loop_goes_on : (d : Daemon F E) → (handle_cmd w cmd d).ended ≡ d.ended

  pub record IsReadOnly (s s' : AppState) : Type 0 where
    pub identities_stay : s'.identity_store ≡ s.identity_store
    pub daemon_stays : s'.shutdown ≡ s.shutdown
    pub sends_queries : (cmds : List Cmd) × (s'.commands ≡ s.commands ++ cmds) × All IsQuery cmds

  same-IsReadOnly : (s : AppState) → IsReadOnly s s
  same-IsReadOnly s = record {
    identities_stay = refl;
    daemon_stays = refl;
    sends_queries = ([], sym (append-nil s.commands), tt);
  }

  is_query : Cmd → Bool
  is_query (get_services names) = true
  is_query (get_checks names) = true
  is_query (get_alerts names) = true
  is_query (get_changes id) = true
  is_query get_system_info = true
  is_query _ = false

  is_query-IsQuery : (cmd : Cmd) → is_query cmd ≡ true → IsQuery cmd
  unfolding handle_cmd is_query
  is_query-IsQuery (get_services names) h = record {
    overlord_stays = λ d. refl;
    changes_stay = λ d. refl;
    loop_goes_on = λ d. refl;
  }
  is_query-IsQuery (get_checks names) h = record {
    overlord_stays = λ d. refl;
    changes_stay = λ d. refl;
    loop_goes_on = λ d. refl;
  }
  is_query-IsQuery (get_alerts names) h = record {
    overlord_stays = λ d. refl;
    changes_stay = λ d. refl;
    loop_goes_on = λ d. refl;
  }
  is_query-IsQuery (get_changes id) h = record {
    overlord_stays = λ d. refl;
    changes_stay = λ d. refl;
    loop_goes_on = λ d. refl;
  }
  is_query-IsQuery get_system_info h = record {
    overlord_stays = λ d. refl;
    changes_stay = λ d. refl;
    loop_goes_on = λ d. refl;
  }
  is_query-IsQuery (services action names) h = cc
  is_query-IsQuery reload h = cc
  is_query-IsQuery (signal s) h = cc
  is_query-IsQuery shutdown h = cc

  ask-IsReadOnly :
      (cmd : Cmd) (body : Answer E → Response E) (a : Option (Answer E)) (s : AppState)
      → is_query cmd ≡ true
      → IsReadOnly s (ask cmd body a s).1
  unfolding ask
  ask-IsReadOnly cmd body a s q =
      if_both (λ (r : Response E × AppState). IsReadOnly s r.1) s.is_closed _ _ (same-IsReadOnly s)
        (record {
          identities_stay = refl;
          daemon_stays = refl;
          sends_queries = (cmd ∷ [], refl, (is_query-IsQuery cmd q, tt));
        })

  require-IsReadOnly :
      (has needed : IdentityAccess) (s : AppState) (result : Response E × AppState)
      → IsReadOnly s result.1
      → IsReadOnly s (require has needed result s).1
  unfolding require
  require-IsReadOnly has needed s result h =
      if_both (λ (r : Response E × AppState). IsReadOnly s r.1) (allows has needed) _ _ h
        (same-IsReadOnly s)

  denied-IsReadOnly :
      (has needed : IdentityAccess) (s : AppState) (result : Response E × AppState)
      → allows has needed ≡ false
      → IsReadOnly s (require has needed result s).1
  unfolding require
  denied-IsReadOnly has needed s result e = rw e (same-IsReadOnly s)

  below_admin :
      (has : IdentityAccess) → allows has write_access ≡ false → allows has admin_access ≡ false
  unfolding allows
  below_admin has e = ground arith

  -- A caller without write access changes nothing.
  router-IsReadOnly :
      (has : IdentityAccess)
      → allows has write_access ≡ false
      → (call : Call) (a : Option (Answer E)) (s : AppState) → IsReadOnly s (router has call a s).1
  unfolding router is_query system_info get_metrics replan list_services list_checks list_alerts
      list_identities services_action get_change get_logs daemon_action add_identities
      remove_identities
  router-IsReadOnly has h system_info_get a s = ask-IsReadOnly _ _ a s refl
  router-IsReadOnly has h metrics_get a s =
      require-IsReadOnly has metrics_access s _ (same-IsReadOnly s)
  router-IsReadOnly has h replan_post a s = denied-IsReadOnly has write_access s _ h
  router-IsReadOnly has h (services_get q) a s =
      require-IsReadOnly has read_access s _ (ask-IsReadOnly _ _ a s refl)
  router-IsReadOnly has h (checks_get q) a s =
      require-IsReadOnly has read_access s _ (ask-IsReadOnly _ _ a s refl)
  router-IsReadOnly has h (alerts_get q) a s =
      require-IsReadOnly has read_access s _ (ask-IsReadOnly _ _ a s refl)
  router-IsReadOnly has h (identities_get q) a s =
      require-IsReadOnly has admin_access s _ (same-IsReadOnly s)
  router-IsReadOnly has h (services_post action names) a s =
      denied-IsReadOnly has write_access s _ h
  router-IsReadOnly has h (changes_get id) a s =
      require-IsReadOnly has read_access s _ (ask-IsReadOnly _ _ a s refl)
  router-IsReadOnly has h (logs_get q n) a s =
      require-IsReadOnly has read_access s _ (same-IsReadOnly s)
  router-IsReadOnly has h (vigild_post action) a s =
      denied-IsReadOnly has admin_access s _ (below_admin has h)
  router-IsReadOnly has h (identities_post specs) a s =
      denied-IsReadOnly has admin_access s _ (below_admin has h)
  router-IsReadOnly has h (identities_delete names) a s =
      denied-IsReadOnly has admin_access s _ (below_admin has h)

  -- While there is an identity: a request that does more than read, that is, changes the identities, asks the daemon to end, or
  -- sends the overlord a command that is not a query, comes from a caller that was authenticated with
  -- write access at least. A query leaves the overlord, the change records and the loop as they are.
  pub router-IsAuthenticated :
      (checks : Checks) (r : Request) (call : Call) (a : Option (Answer E)) (s : AppState)
      → is_empty s.identity_store ≡ false
      → ¬ IsReadOnly s (router (caller checks s.identity_store r) call a s).1
      → (granted : IdentityAccess) × IsAuthenticated checks s.identity_store r granted
        × (level write_access ≤ level granted)
  router-IsAuthenticated checks r call a s present writes =
      let has = caller checks s.identity_store r in
      elim (Bool-cases (allows has write_access)) [
        | inl e ↦ elim (allows-IsAuthenticated checks s.identity_store r write_access present e) [
          | inl free ↦ (let absurd : ⊥ = omega (arith, free) in elim absurd [ ])
          | inr granted ↦ granted
        ]
        | inr e ↦ elim (writes (router-IsReadOnly has e call a s)) [ ]
      ]
