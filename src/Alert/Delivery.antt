-- ===== src/Alert/Delivery.antt =====
-- `http_send` of crates/vigild/src/alert/delivery/send.rs, `resolve` of alert/format/mod.rs and the age
-- test of `delivery_worker` (worker.rs). The environment and what the endpoint answers to each attempt
-- are arguments. The result is the requests made, with their answers, and the delays between them.
use vigil_rs.Prelude.{
  ℕ, zero, suc, ◌*◌, Option, none, some, List, [], ◌∷◌, map, is_empty, ltb, get_or, if◌then◌else◌,
  ok, err, Result, Text, drop, starts_with, codes,
}
use vigil_rs.Plan.{AlertConfig}
use vigil_rs.Duration.{DurationError, parse_duration}

-- The answer to one request: a 2xx status, a 5xx status, another status, or no response.
pub data Answer : Type 0 where
  success server_error other_status failed : Answer

pub data Action : Type 0 where
  request : Answer → Action
  sleep : ℕ → Action

-- `cfg.retry_attempts.unwrap_or(3).max(1)`
unfoldable pub max_attempts : Option ℕ → ℕ
max_attempts none = 3
max_attempts (some n) = if ltb n 1 then 1 else n

-- in milliseconds; an entry that is no duration counts as one second
duration_or_second : Result DurationError ℕ → ℕ
duration_or_second (ok d) = d
duration_or_second (err _) = 1_000

unfoldable pub backoff : List Text → List ℕ
unfolding duration_or_second
backoff [] = 1_000 ∷ 2_000 ∷ []
backoff (first ∷ rest) = map (λ s. duration_or_second (parse_duration s)) (first ∷ rest)

-- `backoff.get(attempt)`, or the last entry
unfoldable pub delay_at : List ℕ → ℕ → ℕ
delay_at [] attempt = 0
delay_at (d ∷ []) attempt = d
delay_at (d ∷ e ∷ rest) zero = d
delay_at (d ∷ e ∷ rest) (suc attempt) = delay_at (e ∷ rest) attempt

-- What follows an answer: nothing, or the rest of the loop, while attempts are left.
unfoldable pub after : Answer → ℕ → List Action → List Action
after success left again = []
after server_error left again = if ltb 0 left then again else []
after other_status left again = []
after failed left again = again

-- The loop from attempt number `attempt` on, with `left` attempts to go.
unfoldable pub attempts : (ℕ → Answer) → List ℕ → ℕ → ℕ → List Action
unfolding after
attempts answer delays attempt zero = []
attempts answer delays attempt (suc left) =
    let next = attempts answer delays (suc attempt) left in
    let again = if ltb 0 left then sleep (delay_at delays attempt) ∷ next else next in
    request (answer attempt) ∷ after (answer attempt) left again

-- `resolve`: a value `env:NAME` is read from the environment, empty if it is not set.
unfoldable pub resolve : (Text → Option Text) → Text → Text
resolve env value = if starts_with value env_prefix then get_or (env (drop 4 value)) [] else value
  where
    env_prefix : Text
    env_prefix = b'e' ∷ b'n' ∷ b'v' ∷ b':' ∷ []

unfoldable pub http_send : (Text → Option Text) → (ℕ → Answer) → AlertConfig → List Action
unfolding attempts max_attempts backoff resolve
http_send env answer cfg =
    if is_empty (resolve env (codes cfg.url))
    then []
    else attempts answer (backoff cfg.retry_backoff) 0 (max_attempts cfg.retry_attempts)

-- The worker's step: a job that waited longer than the limit, in milliseconds, is discarded.
unfoldable pub deliver : ℕ → ℕ → (Text → Option Text) → (ℕ → Answer) → AlertConfig → List Action
unfolding http_send
deliver max_age_secs age env answer cfg =
    if ltb (max_age_secs * 1_000) age then [] else http_send env answer cfg
