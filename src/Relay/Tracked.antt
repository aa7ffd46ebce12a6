-- ===== src/Relay/Tracked.antt =====
-- Every stream that is open or ended but not yet cleaned up belongs to a pod that is known to run.
use vigil_rs.Prelude.{◌≡◌, Bool, true, List, String, Map, lookup, all, is_some}
use vigil_rs.Relay.Pods.{StreamTask, Source}

-- the pod of a task is in the map
abbrev pub is_tracked : Map (List String) → StreamTask → Bool
is_tracked pods t = is_some (lookup t.pod pods)

abbrev pub IsTracked : Source → Type 0
IsTracked s = all (is_tracked s.running_pods) s.active ≡ true

-- The same map, and all tasks in it.
abbrev IsWithin : Map (List String) → Source → Type 0
IsWithin pods s = (s.running_pods ≡ pods) × (all (is_tracked pods) s.active ≡ true)
