-- ===== src/Check/Examples.antt =====
-- The theorems on checks at one check.
use vigil_rs.Prelude.{◌≡◌, true, false, none, some, List, [], ◌∷◌, Bool, arith}
use vigil_rs.Plan.{CheckConfig, merge, ready, enabled}
use vigil_rs.Alert.{up, down}
use vigil_rs.Alert.History.{last_status}
use vigil_rs.Check.Actor.{begin, ticks, get_status, settings}
use vigil_rs.Check.Threshold.{get_status-ticks}
use vigil_rs.Check.Reports.{last_status-ticks}

abbrev config : CheckConfig
config = record {
  override_mode = merge;
  level = ready;
  startup = enabled;
  delay = none;
  period = none;
  timeout = none;
  threshold = some 2;
  http = none;
  tcp = none;
  exec = none;
}

-- a success and then two failures, newest first
abbrev probes : List Bool
probes = false ∷ false ∷ true ∷ []

get_status-ticks_example : get_status (ticks probes (begin "ping" config up)) ≡ (down, 2, 2)
unfolding settings
get_status-ticks_example = get_status-ticks "ping" config up probes (omega arith)

last_status-ticks_example :
    let a = ticks probes (begin "ping" config up) in last_status "ping" a.events ≡ some a.status
last_status-ticks_example = last_status-ticks "ping" config up false (false ∷ true ∷ [])
