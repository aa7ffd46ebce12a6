-- ===== src/Overlord/Runs.antt =====
-- Runs of the overlord's main loop and of the reading of layers.
use vigil_rs.Prelude.{
  ℕ, ◌≡◌, refl, true, Option, none, some, [], ◌∷◌, Text, codes, before, lookup, keys, contains,
  insert, keep, ok, ◌>>=◌,
}
use vigil_rs.NoProxy.Strings.{ends_with}
use vigil_rs.Plan.{Layer, from_layers}
use vigil_rs.Overlord.State.{svc_cmd}
use vigil_rs.Overlord.Ordering.{after_deps_running, runs}
use vigil_rs.Overlord.Examples.{idle}
use vigil_rs.Overlord.View.{has}
use vigil_rs.Overlord.Load.{
  File, LoadError, entries, load_plan, file_stem, readable, is_layer, read_layers,
}
use vigil_rs.Overlord.Loaded.{IsAscending, swap, load_plan-ascending}
use vigil_rs.Overlord.Main.{
  Daemon, start, Reach, here, later, takes, commanded, shutdown, round, left,
}
use vigil_rs.Overlord.Samples.{surroundings}
use vigil_rs.Overlord.Stopped.{is_shut}
use vigil_rs.Overlord.Ended.{start-Reach-IsStopped}

-- the loop starts, is told to shut down, and takes the command
abbrev told : Daemon ℕ LoadError
told = let d = start surroundings idle in record d { commands = shutdown ∷ [] }

path : Reach surroundings (start surroundings idle) (round surroundings told)
unfolding start
path = later (later here (commanded shutdown)) takes

start-Reach-IsStopped_example : is_shut "web" (round surroundings told).overlord.sent ≡ true
unfolding round has start lookup keys after_deps_running contains svc_cmd runs insert
start-Reach-IsStopped_example =
    start-Reach-IsStopped surroundings idle {ending = left} path refl "web" refl

abbrev base : File
base = record { file_name = "001-base.yaml"; content = some (codes "services: {}") }

abbrev local : File
local = record { file_name = "002-local.yml"; content = none }

abbrev empty_layer : Text → Option (Layer ℕ)
empty_layer text = some (record {
  order = 0;
  label = "";
  summary = none;
  description = none;
  services = [];
  checks = [];
  alerts = record { max_queue_depth = none; max_queue_time = none; entries = [] };
})

are_layers :
    (f g : File)
    → IsAscending (f ∷ g ∷ [])
    → is_layer f ≡ true
    → is_layer g ≡ true
    → IsAscending (keep is_layer (readable (some f ∷ some g ∷ [])))
unfolding readable
are_layers f g h a b = rw (a, b) h

load_plan-ascending_example : load_plan empty_layer (entries (some local ∷ some base ∷ [])) ≡ (
    read_layers empty_layer 0 (keep is_layer (readable (some base ∷ some local ∷ []))) >>= λ layers.
    ok (from_layers layers))
unfolding before is_layer ends_with
load_plan-ascending_example =
    load_plan-ascending empty_layer (some local ∷ some base ∷ []) (some base ∷ some local ∷ [])
      (swap (some local) (some base) [] refl) (are_layers base local (refl, tt) refl refl)

file_stem_test : file_stem "001-base.yaml" ≡ "001-base"
unfolding file_stem
file_stem_test = refl
