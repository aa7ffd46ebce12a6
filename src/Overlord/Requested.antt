-- ===== src/Overlord/Requested.antt =====
-- What an action of the API does to its targets.
use vigil_rs.Prelude.{
  ℕ, Bool, ◌≡◌, refl, ◌∙◌, List, [], ◌∷◌, String, keys, is_empty, Result, length, if◌then◌else◌,
}
use vigil_rs.Plan.{Plan, CheckConfig}
use vigil_rs.Overlord.State.{Overlord, Host, SvcCmd, start, stop, restart}
use vigil_rs.Overlord.Actions.{
  ServiceAction, start_services, stop_services, restart_services, act_on, act_on_all,
  handle_services_action,
}
use vigil_rs.Overlord.View.{
  has, sent_to, IsSameView, IsSameView-refl, IsSameView-trans, IsCommanded, svc_cmd-IsCommanded,
}

-- the action that sends a command to its targets
abbrev pub action_of : SvcCmd → ServiceAction
action_of start = start_services
action_of stop = stop_services
action_of restart = restart_services

module _ {F E : Type 0} (same : CheckConfig → CheckConfig → Bool) (h : Host F)
    (load : ℕ → Result E (Plan F)) where
  act_on-IsCommanded :
      (cmd : SvcCmd) (layers : Result E (Plan F)) (name : String) (o : Overlord F)
      → IsCommanded cmd name o (act_on same h (action_of cmd) layers name o).1
  unfolding act_on
  act_on-IsCommanded start layers name o = svc_cmd-IsCommanded h start name o
  act_on-IsCommanded stop layers name o = svc_cmd-IsCommanded h stop name o
  act_on-IsCommanded restart layers name o = svc_cmd-IsCommanded h restart name o

  record IsAllCommanded (cmd : SvcCmd) (names : List String) (o o' : Overlord F) : Type 0 where
    view : IsSameView o o'
    pending : o'.pending_autostart ≡ o.pending_autostart
    sent : o'.sent ≡ sent_to cmd (has o) names o.sent

  act_on_all-IsAllCommanded :
      (cmd : SvcCmd) (names : List String) (o : Overlord F)
      → IsAllCommanded cmd names o (act_on_all same h (action_of cmd) load names o).1
  unfolding act_on_all
  act_on_all-IsAllCommanded cmd [] o = record {
    view = IsSameView-refl o;
    pending = refl;
    sent = refl;
  }
  act_on_all-IsAllCommanded cmd (name ∷ rest) o =
      let next = (act_on same h (action_of cmd) (load (length rest)) name o).1 in
      let c = act_on-IsCommanded cmd (load (length rest)) name o in
      let r = act_on_all-IsAllCommanded cmd rest next in
      let there : has next ≡ has o = λ i n. c.view.there n i in
      record {
        view = IsSameView-trans c.view r.view;
        pending = r.pending ∙ c.pending;
        sent = r.sent ∙ (λ i. sent_to cmd (there i) rest (c.sent i));
      }

  -- A start, stop or restart of the API sends its command, in order, to each target that exists and to no
  -- other service; the targets are the names given, or every service of the plan if none is given. The
  -- plan and what waits stay as they are.
  pub handle_services_action-sent :
      (cmd : SvcCmd) (names : List String) (o : Overlord F)
      → let o' = (handle_services_action same h (action_of cmd) load names o).1 in
        (o'.sent
          ≡ sent_to cmd (has o) (if is_empty names then keys o.plan.services else names) o.sent)
        × (o'.plan ≡ o.plan)
        × (o'.pending_autostart ≡ o.pending_autostart)
  unfolding handle_services_action
  handle_services_action-sent cmd names o =
      let r =
        act_on_all-IsAllCommanded cmd (if is_empty names then keys o.plan.services else names) o in
      (r.sent, r.view.plan, r.pending)
