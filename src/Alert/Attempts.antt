-- ===== src/Alert/Attempts.antt =====
-- The retries of `http_send` against a description of them.
use vigil_rs.Prelude.{
  ℕ, zero, suc, ◌+◌, ◌<◌, Bool, true, false, ◌≡◌, refl, ap, ◌⊎◌, inl, inr, List, [], ◌∷◌, Option,
  none, some, Text, codes, is_empty, ltb, arith,
}
use vigil_rs.Plan.{AlertConfig}
use vigil_rs.Alert.Delivery.{
  Answer, success, server_error, other_status, failed, Action, request, sleep, max_attempts,
  backoff, delay_at, attempts, after, resolve, http_send,
}

-- an answer after which another attempt is made
abbrev pub is_retryable : Answer → Bool
is_retryable server_error = true
is_retryable failed = true
is_retryable success = false
is_retryable other_status = false

-- The attempts `from`, …, `from + k`, with the delay of each before the next.
abbrev pub retried : (ℕ → Answer) → List ℕ → ℕ → ℕ → List Action
retried answer delays from zero = request (answer from) ∷ []
retried answer delays from (suc k) =
    request (answer from) ∷ sleep (delay_at delays from) ∷ retried answer delays (suc from) k

-- The actions are `k` failed attempts and one more, the last: it is answered for good, or no attempt is left.
pub record IsRetried (answer : ℕ → Answer) (delays : List ℕ) (from n : ℕ) (actions : List Action)
    : Type 0 where
  k : ℕ
  bound : k < n
  actions_are : actions ≡ retried answer delays from k
  before : (j : ℕ) → j < k → is_retryable (answer (from + j)) ≡ true
  last : (is_retryable (answer (from + k)) ≡ false) ⊎ (suc k ≡ n)

stop_here :
    (answer : ℕ → Answer) (delays : List ℕ) (from left : ℕ)
    → (is_retryable (answer from) ≡ false) ⊎ (left ≡ 0)
    → IsRetried answer delays from (suc left) (request (answer from) ∷ [])
stop_here answer delays from left h = record {
  k = 0;
  bound = omega arith;
  actions_are = refl;
  before = λ j lt. absurd (omega (arith, lt));
  last = grind (arith, h);
}

go_on :
    (answer : ℕ → Answer) (delays : List ℕ) (from left : ℕ) {rest : List Action}
    → is_retryable (answer from) ≡ true
    → IsRetried answer delays (suc from) left rest
    → IsRetried answer delays from
        (suc left)
        (request (answer from) ∷ sleep (delay_at delays from) ∷ rest)
go_on answer delays from left retry h = record {
  k = suc h.k;
  bound = omega (arith, h.bound);
  actions_are =
      ap (λ rest. request (answer from) ∷ sleep (delay_at delays from) ∷ rest) h.actions_are;
  before = before_all;
  last = grind (arith, h.last);
}
  where
    before_all : (j : ℕ) → j < suc h.k → is_retryable (answer (from + j)) ≡ true
    before_all zero lt = grind (arith, retry)
    before_all (suc j) lt = grind (arith, h.before j (omega (arith, lt)))

more : (left : ℕ) → ltb 0 (suc left) ≡ true
more left = ground arith

after-IsRetried :
    (answer : ℕ → Answer) (delays : List ℕ) (from left : ℕ) {rest : List Action} (a : Answer)
    → answer from ≡ a
    → IsRetried answer delays (suc from) (suc left) rest
    → IsRetried answer delays from
        (suc (suc left))
        (request (answer from) ∷ after a (suc left) (sleep (delay_at delays from) ∷ rest))
unfolding after
after-IsRetried answer delays from left success e h =
    stop_here answer delays from (suc left) (inl (ap is_retryable e))
after-IsRetried answer delays from left server_error e h =
    rw (more left) (go_on answer delays from (suc left) (ap is_retryable e) h)
after-IsRetried answer delays from left other_status e h =
    stop_here answer delays from (suc left) (inl (ap is_retryable e))
after-IsRetried answer delays from left failed e h =
    go_on answer delays from (suc left) (ap is_retryable e) h

last-stops : (a : Answer) → after a 0 [] ≡ []
unfolding after
last-stops success = refl
last-stops server_error = refl
last-stops other_status = refl
last-stops failed = refl

attempts-IsRetried :
    (answer : ℕ → Answer) (delays : List ℕ) (from left : ℕ)
    → IsRetried answer delays from (suc left) (attempts answer delays from (suc left))
unfolding attempts
attempts-IsRetried answer delays from zero =
    rw (last-stops (answer from)) (stop_here answer delays from 0 (inr refl))
attempts-IsRetried answer delays from (suc left) = rw (more left) (
    after-IsRetried answer delays from left (answer from) refl
      (attempts-IsRetried answer delays (suc from) left))

attempts_suc : (configured : Option ℕ) → (n : ℕ) × (max_attempts configured ≡ suc n)
unfolding max_attempts
attempts_suc none = (2, refl)
attempts_suc (some zero) = (0, refl)
attempts_suc (some (suc n)) = (n, ground arith)

-- With a URL, a delivery is `k + 1` requests, within the configured number of attempts, three if none
-- is configured and never fewer than one: each of the first `k` was answered by a 5xx status or not
-- at all, and was followed by the delay that the list of delays has for it; the last was answered
-- otherwise, or was the last attempt allowed.
pub http_send-IsRetried :
    (env : Text → Option Text) (answer : ℕ → Answer) (cfg : AlertConfig)
    → is_empty (resolve env (codes cfg.url)) ≡ false
    → IsRetried answer
        (backoff cfg.retry_backoff)
        0
        (max_attempts cfg.retry_attempts)
        (http_send env answer cfg)
unfolding http_send
http_send-IsRetried env answer cfg url =
    let a = attempts_suc cfg.retry_attempts in
    rw (url, a.1) (attempts-IsRetried answer (backoff cfg.retry_backoff) 0 a.0)
