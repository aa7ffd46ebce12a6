-- ===== src/Service/Backoff.antt =====
-- crates/vigild/src/service/actor/backoff.rs. Delays are milliseconds.
use vigil_rs.Prelude.{
  ℕ, ◌+◌, ◌-◌, ◌%◌, ◌^◌, min, Bool, ◌&&◌, Option, none, some, Text, to_option, get_or, ltb, leb,
}
use vigil_rs.Duration.{parse_duration}
use vigil_rs.Plan.{ServiceConfig}
use vigil_rs.Service.Runtime.{Actor, World, default_backoff_delay, default_backoff_limit}

-- `.as_deref().and_then(|s| parse_duration(s).ok())`
unfoldable pub parsed : Option Text → Option ℕ
parsed none = none
parsed (some s) = to_option (parse_duration s)

module _ {F : Type 0} where
  unfoldable pub limit : ServiceConfig F → ℕ
  unfolding parsed
  limit c = get_or (parsed c.backoff_limit) default_backoff_limit

  unfoldable pub initial_delay : ServiceConfig F → ℕ
  unfolding parsed
  initial_delay c = get_or (parsed c.backoff_delay) default_backoff_delay

  -- `(ms as f64 * factor) as u64`: the cast stops at the greatest number of 64 bits.
  unfoldable pub scaled : World F → ℕ → F → ℕ
  scaled w ms factor = min (w.scale ms factor) (2 ^ 64 - 1)

  -- The delay to wait now, and the state with the next one.
  unfoldable pub next_backoff : World F → Actor F → ℕ × Actor F
  unfolding scaled
  next_backoff w a =
      let factor = get_or a.config.backoff_factor w.two in
      let next = min (scaled w a.current_backoff factor) (limit a.config) in
      (
        a.current_backoff,
        record a { current_backoff = next; backoff_count = (a.backoff_count + 1) % 2 ^ 32 },
      )

  unfoldable pub reset_backoff : Actor F → Actor F
  reset_backoff a = record a { backoff_count = 0; current_backoff = initial_delay a.config }

  unfoldable pub backoff_limit_exceeded : Actor F → Bool
  backoff_limit_exceeded a = ltb 0 a.backoff_count && leb (limit a.config) a.current_backoff
