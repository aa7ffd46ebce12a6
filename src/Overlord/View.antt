-- ===== src/Overlord/View.antt =====
-- What the commands of the overlord leave as it is: everything but the actors and the trace.
use vigil_rs.Prelude.{
  Bool, ◌≡◌, refl, ◌∙◌, ap, Option, none, some, List, [], ◌∷◌, String, Map, lookup, insert,
  lookup-insert, eq_iff, is_some, arith, if◌then◌else◌, Option-cases, inl, inr,
}
use vigil_rs.Plan.{Plan, ServiceConfig}
use vigil_rs.Service.{step}
use vigil_rs.Service.Fixed.{config-step}
use vigil_rs.Overlord.State.{
  Overlord, ServiceEntry, Host, SvcCmd, Sent, command, svc_cmd, input_of, command_entry, note,
}
use vigil_rs.Overlord.Ordering.{runs, is_ready, after_deps_running}

unfoldable pub has : {F : Type 0} → Overlord F → String → Bool
has o name = is_some (lookup name o.services)

-- the configuration that the actor of a service runs with
unfoldable pub config_of : {F : Type 0} → Map (ServiceEntry F) → String → Option (ServiceConfig F)
config_of services name = elim (lookup name services) [
  | none ↦ none
  | some entry ↦ some entry.actor.config
]

-- The trace after a command to each of these services, if they exist.
abbrev pub sent_to : SvcCmd → (String → Bool) → List String → List Sent → List Sent
sent_to cmd there [] sent = sent
sent_to cmd there (name ∷ rest) sent =
    sent_to cmd there rest (if there name then command name cmd ∷ sent else sent)

module _ {F : Type 0} where
  -- The two overlords agree on the plan, on which services exist and which run, and on what waits.
  pub record IsSameView (o o' : Overlord F) : Type 0 where
    pub plan : o'.plan ≡ o.plan
    pub running : (name : String) → runs o'.services name ≡ runs o.services name
    pub there : (name : String) → has o' name ≡ has o name
    pub config : (name : String) → config_of o'.services name ≡ config_of o.services name

  -- A command to a service.
  pub record IsCommanded (cmd : SvcCmd) (name : String) (o o' : Overlord F) : Type 0 where
    pub view : IsSameView o o'
    pub pending : o'.pending_autostart ≡ o.pending_autostart
    pub sent : o'.sent ≡ (if has o name then command name cmd ∷ o.sent else o.sent)

  -- A new entry in the place of one with the same state.
  pub runs-insert :
      (name : String) (e e' : ServiceEntry F) (services : Map (ServiceEntry F))
      → lookup name services ≡ some e
      → e'.state ≡ e.state
      → (n : String) → runs (insert name e' services) n ≡ runs services n
  unfolding runs
  runs-insert name e e' services found same n =
      ground (arith, lookup-insert name n e' services, eq_iff name n, found, same)

  is_some-insert :
      (name : String) (e e' : ServiceEntry F) (services : Map (ServiceEntry F))
      → lookup name services ≡ some e
      → (n : String) → is_some (lookup n (insert name e' services)) ≡ is_some (lookup n services)
  is_some-insert name e e' services found n =
      ground (arith, lookup-insert name n e' services, eq_iff name n, found)

  pub config_of-insert :
      (name : String) (e e' : ServiceEntry F) (services : Map (ServiceEntry F))
      → lookup name services ≡ some e
      → e'.actor.config ≡ e.actor.config
      → (n : String) → config_of (insert name e' services) n ≡ config_of services n
  unfolding config_of
  config_of-insert name e e' services found same n =
      ground (arith, lookup-insert name n e' services, eq_iff name n, found, same)

  command_entry-IsCommanded :
      (h : Host F) (cmd : SvcCmd) (name : String) (entry : ServiceEntry F) (o : Overlord F)
      → lookup name o.services ≡ some entry
      → IsCommanded cmd name o (command_entry h cmd name entry o).1
  unfolding command_entry note has
  command_entry-IsCommanded h cmd name entry o e =
      let r = step h.world (input_of cmd (h.spawned name)) entry.actor in
      let entry' : ServiceEntry F = record entry { actor = r.1 } in
      record {
        view = record {
          plan = refl;
          running = runs-insert name entry entry' o.services e refl;
          there = is_some-insert name entry entry' o.services e;
          config =
              config_of-insert name entry entry' o.services e
                (config-step h.world (input_of cmd (h.spawned name)) entry.actor);
        };
        pending = refl;
        sent = ground (arith, e);
      }

  pub svc_cmd-IsCommanded :
      (h : Host F) (cmd : SvcCmd) (name : String) (o : Overlord F)
      → IsCommanded cmd name o (svc_cmd h cmd name o).1
  unfolding svc_cmd has
  svc_cmd-IsCommanded h cmd name o = elim (Option-cases (lookup name o.services)) [
    | inl e ↦
        rw (svc_cmd, e)
          (record {
            view = record {
              plan = refl;
              running = λ n. refl;
              there = λ n. refl;
              config = λ n. refl;
            };
            pending = refl;
            sent = ground (arith, e);
          })
    | inr (entry, e) ↦ rw (svc_cmd, e) (command_entry-IsCommanded h cmd name entry o e)
  ]

  pub is_ready-cong :
      (plan : Plan F) (f g : String → Bool)
      → ((n : String) → f n ≡ g n)
      → (name : String) → is_ready plan f name ≡ is_ready plan g name
  is_ready-cong plan f g h name = ap (λ k. is_ready plan k name) (λ i n. h n i)

  -- Readiness depends on the view only.
  pub after_deps_running-IsSameView :
      (o o' : Overlord F)
      → IsSameView o o'
      → (name : String) → after_deps_running o' name ≡ after_deps_running o name
  unfolding after_deps_running
  after_deps_running-IsSameView o o' v name =
      is_ready-cong o'.plan (runs o'.services) (runs o.services) v.running name
      ∙ ap (λ p. is_ready p (runs o.services) name) v.plan

  pub IsSameView-refl : (o : Overlord F) → IsSameView o o
  IsSameView-refl o = record {
    plan = refl;
    running = λ n. refl;
    there = λ n. refl;
    config = λ n. refl;
  }

  pub IsSameView-trans :
      {o o' o'' : Overlord F} → IsSameView o o' → IsSameView o' o'' → IsSameView o o''
  IsSameView-trans v v' = record {
    plan = v'.plan ∙ v.plan;
    running = λ n. v'.running n ∙ v.running n;
    there = λ n. v'.there n ∙ v.there n;
    config = λ n. v'.config n ∙ v.config n;
  }
