-- ===== src/Relay/Reconnect.antt =====
-- The loops of `run` of crates/vigil-log-relay/src/source_url/mod.rs and source_unix/mod.rs, which are alike: what comes
-- of each request is an argument.
use vigil_rs.Prelude.{ℕ, ◌*◌, min, Bool, true, false, Option, none, some, List, [], ◌∷◌, ◌++◌}
use vigil_rs.Relay.Http.{ReconnectConfig, bump_failures}

-- A response with a status of success, whose stream ended cleanly or not, another status, or no response.
pub data Attempt : Type 0 where
  streamed : Bool → Attempt
  bad_status unreachable : Attempt

pub record Loop : Type 0 where
  pub failures : ℕ
  pub backoff : ℕ
  pub slept : List ℕ

unfoldable pub new_loop : ReconnectConfig → Loop
new_loop cfg = record { failures = 0; backoff = cfg.initial_delay_ms; slept = [] }

unfoldable pub with_failures : Loop → Option ℕ → Option Loop
with_failures s none = none
with_failures s (some n) = some (record s { failures = n })

-- One more failure, unless the source is given up.
unfoldable pub fail : ReconnectConfig → Loop → Option Loop
unfolding with_failures bump_failures
fail cfg s = with_failures s (bump_failures s.failures cfg.max_retries)

unfoldable pub attempt : ReconnectConfig → Attempt → Loop → Option Loop
unfolding fail
attempt cfg (streamed true) s = some (record s { failures = 0; backoff = cfg.initial_delay_ms })
attempt cfg (streamed false) s =
    fail cfg (record s { failures = 0; backoff = cfg.initial_delay_ms })
attempt cfg bad_status s = fail cfg s
attempt cfg unreachable s = fail cfg s

-- the sleep at the end of a round
unfoldable pub pause : ReconnectConfig → Loop → Loop
pause cfg s = record s {
  backoff = min (s.backoff * 2) cfg.max_delay_ms;
  slept = s.slept ++ s.backoff ∷ [];
}

-- The loop on what comes of the requests; none if the source was given up.
unfoldable pub run : ReconnectConfig → List Attempt → Loop → Option Loop
unfolding attempt pause
run cfg [] s = some s
run cfg (a ∷ rest) s = elim (attempt cfg a s) [ none ↦ none | some t ↦ run cfg rest (pause cfg t) ]
