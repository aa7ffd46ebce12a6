-- ===== src/Overlord/Ordering.antt =====
-- `after_deps_running` of crates/vigild/src/overlord/lifecycle.rs.
use vigil_rs.Prelude.{
  Bool, true, false, not, ◌&&◌, ◌||◌, none, some, [], ◌∷◌, ◌++◌, String, Map, lookup, contains, all,
  str_eq,
}
use vigil_rs.Plan.{ServiceConfig, Plan}
use vigil_rs.Service.{is_running}
use vigil_rs.Overlord.State.{Overlord, ServiceEntry}

module _ {F : Type 0} where
  -- `self.services.get(dep).map(|e| e.snapshot.state.is_running()).unwrap_or(false)`
  unfoldable pub runs : Map (ServiceEntry F) → String → Bool
  runs services name = elim (lookup name services) [
    | none ↦ false
    | some entry ↦ is_running entry.state
  ]

  -- Each other service that names this one in its `before` runs.
  unfoldable pub before_ok : (String → Bool) → String → Map (ServiceConfig F) → Bool
  before_ok running name [] = true
  before_ok running name ((other, c) ∷ rest) =
      (str_eq other name || not (contains c.before name) || running other)
      && before_ok running name rest

  unfoldable pub is_ready : Plan F → (String → Bool) → String → Bool
  unfolding before_ok
  is_ready plan running name = elim (lookup name plan.services) [
    | none ↦ true
    | some config ↦
        all running (config.after ++ config.requires) && before_ok running name plan.services
  ]

  unfoldable pub after_deps_running : Overlord F → String → Bool
  unfolding is_ready
  after_deps_running o name = is_ready o.plan (runs o.services) name
