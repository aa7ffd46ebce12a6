-- ===== src/Check/Threshold.antt =====
-- The status of a check against the results of its probes.
use vigil_rs.Prelude.{
  ℕ, suc, ◌+◌, ◌<◌, Bool, true, false, ◌&&◌, ◌≡◌, refl, List, [], ◌∷◌, length, any, leb, ltb,
  if◌then◌else◌, arith, String,
}
use vigil_rs.Alert.{CheckStatus, up, down}
use vigil_rs.Plan.{CheckConfig}
use vigil_rs.Check.Actor.{
  CheckActor, u32_mod, tick, ticks, succeeded, failed_once, send, begin, get_status, settings,
}

-- The failures since the last success, the results being newest first.
abbrev pub failures_in_row : List Bool → ℕ
failures_in_row [] = 0
failures_in_row (true ∷ before) = 0
failures_in_row (false ∷ before) = suc (failures_in_row before)

-- The status that the results call for: down from the threshold on, up below it after a success,
-- and the initial one below it before the first success.
abbrev pub status_for : ℕ → CheckStatus → List Bool → CheckStatus
status_for threshold initial results =
    if ltb 0 (failures_in_row results) && leb threshold (failures_in_row results)
    then down
    else if any (λ ok. ok) results
    then up
    else initial

pub record IsTallied (initial : CheckStatus) (threshold : ℕ) (results : List Bool) (a : CheckActor)
    : Type 0 where
  failures : a.failures ≡ failures_in_row results
  status : a.status ≡ status_for threshold initial results
  kept : a.threshold ≡ threshold

failures_in_row-length : (results : List Bool) → failures_in_row results < suc (length results)
failures_in_row-length [] = omega arith
failures_in_row-length (true ∷ before) = omega arith
failures_in_row-length (false ∷ before) = omega (arith, failures_in_row-length before)

tick-IsTallied :
    (initial : CheckStatus) (threshold : ℕ) (ok : Bool) (before : List Bool) (a : CheckActor)
    → failures_in_row before + 1 < u32_mod
    → IsTallied initial threshold before a
    → IsTallied initial threshold (ok ∷ before) (tick ok a)
unfolding tick succeeded failed_once send
tick-IsTallied initial threshold true before a room h = record {
  failures = ground (arith, h.failures);
  status = ground (arith, h.status, h.failures);
  kept = ground (arith, h.kept);
}
tick-IsTallied initial threshold false before a room h = record {
  failures = ground (arith, h.failures);
  status = ground (arith, h.status, h.failures, h.kept);
  kept = ground (arith, h.kept);
}

ticks-IsTallied :
    (initial : CheckStatus) (results : List Bool) (a : CheckActor)
    → length results < u32_mod
    → a.failures ≡ 0
    → a.status ≡ initial
    → IsTallied initial a.threshold results (ticks results a)
unfolding ticks
ticks-IsTallied initial [] a room zero_failures status = record {
  failures = zero_failures;
  status = status;
  kept = refl;
}
ticks-IsTallied initial (ok ∷ before) a room zero_failures status =
    tick-IsTallied initial a.threshold ok before (ticks before a)
      (omega (arith, room, failures_in_row-length before))
      (ticks-IsTallied initial before a (omega (arith, room)) zero_failures status)

-- A check that starts with some status, and whose probes gave the results, fewer than 2 ^ 32 of them and
-- newest first, is down if at least the threshold of probes, and at least one, failed since the last
-- success, and otherwise up if a probe ever succeeded; with neither, it has the status that it started with.
-- It counts the failures since the last success.
pub get_status-ticks :
    (name : String) (config : CheckConfig) (initial : CheckStatus) (results : List Bool)
    → length results < u32_mod
    → get_status (ticks results (begin name config initial)) ≡ (
      status_for (settings config).threshold initial results,
      failures_in_row results,
      (settings config).threshold,
    )
unfolding begin get_status
get_status-ticks name config initial results room =
    let h = ticks-IsTallied initial results (begin name config initial) room refl refl in
    ground (arith, h.failures, h.status, h.kept)
