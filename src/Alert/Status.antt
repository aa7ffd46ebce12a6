-- ===== src/Alert/Status.antt =====
-- `CheckStatus` of crates/vigil-types/src/api.rs.
use vigil_rs.Prelude.{Bool, true, false, Option, none, some}

pub data CheckStatus : Type 0 where
  up down : CheckStatus

abbrev pub same_status : CheckStatus → CheckStatus → Bool
same_status up up = true
same_status down down = true
same_status _ _ = false

abbrev pub is_down : CheckStatus → Bool
is_down down = true
is_down up = false

abbrev pub is_up : CheckStatus → Bool
is_up up = true
is_up down = false

-- `prev == Some(status)`
abbrev pub was : Option CheckStatus → CheckStatus → Bool
was none status = false
was (some prev) status = same_status prev status
