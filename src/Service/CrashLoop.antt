-- ===== src/Service/CrashLoop.antt =====
-- A service that keeps failing is given up: the delays grow up to the limit, and past it the actor
-- goes to `error`.
use vigil_rs.Prelude.{
  ℕ, suc, ◌+◌, ◌-◌, ◌^◌, ◌%◌, ◌∙◌, ltb, leb, ◌&&◌, ◌≤◌, ◌<◌, min, Bool, true, false, ◌≡◌, refl, ◌⊎◌,
  inl, inr, Option, none, some, List, [], ◌∷◌, length, arith, get_or, ◌==◌, if◌then◌else◌,
  Bool-cases,
}
use vigil_rs.Plan.{ServiceConfig, restart}
use vigil_rs.Service.State.{ServiceState, active, backoff, error, is_active, is_error}
use vigil_rs.Service.Runtime.{Actor, World}
use vigil_rs.Service.Backoff.{scaled, limit, backoff_limit_exceeded}
use vigil_rs.Service.Handlers.{exited, handle_child_exit, handle_backoff_expired}
use vigil_rs.Service.Loop.{child_exit, backoff_expired, step}

abbrev pub in_backoff : ServiceState → Bool
in_backoff backoff = true
in_backoff _ = false

-- The arithmetic of one retry: `cur` is the delay, `scaled` its product with the factor, `lim` the
-- limit and `n` the count.
retry_bounds :
    (cur scaled lim n rounds : ℕ)
    → (0 < cur) ⊎ (lim ≤ cur)
    → (0 < cur → min (cur + 1) lim ≤ scaled)
    → n + suc rounds < 2 ^ 32
    → (ltb 0 n && leb lim cur) ≡ false
    → ((0 < min scaled lim) ⊎ (lim ≤ min scaled lim))
      × ((n + 1) % 2 ^ 32 + rounds < 2 ^ 32)
      × (lim - min scaled lim + (if (n + 1) % 2 ^ 32 == 0 then 1 else 0)
          < lim - cur + (if n == 0 then 1 else 0))
retry_bounds cur scaled lim n rounds grown grows room below =
    let count : (n + 1) % 2 ^ 32 ≡ n + 1 = omega arith in
    rw count (ground arith, ground arith, ground arith)

min_in_u64 :
    {F : Type 0} (w : World F) (ms : ℕ) (factor : F) (lim : ℕ)
    → min (scaled w ms factor) lim < 2 ^ 64
unfolding scaled
min_in_u64 w ms factor lim = omega arith

module _ {F : Type 0} (w : World F) where
  -- The process of an active service exits with code 1; if the actor then waits, the wait ends, and
  -- the spawn answers `spawned`.
  unfoldable pub crash : Option ℕ → Actor F → Actor F
  crash spawned a =
      if is_active a.state
      then (let b = (step w (child_exit (exited 1) none) a).1 in
          if in_backoff b.state then (step w (backoff_expired spawned) b).1 else b)
      else a

  unfoldable pub crash_loop : List (Option ℕ) → Actor F → Actor F
  crash_loop [] a = a
  crash_loop (spawned ∷ later) a = crash_loop later (crash spawned a)

  -- The two outcomes of a crash.
  record IsRetried (a b : Actor F) : Type 0 where
    state : b.state ≡ active
    config : b.config ≡ a.config
    delay :
        b.current_backoff
        ≡ min (scaled w a.current_backoff (get_or a.config.backoff_factor w.two)) (limit a.config)
    count : b.backoff_count ≡ (a.backoff_count + 1) % 2 ^ 32
    below : backoff_limit_exceeded a ≡ false

  crash-outcome :
      (a : Actor F) (spawned : Option ℕ)
      → a.state ≡ active
      → (a.config.on_failure ≡ none) ⊎ (a.config.on_failure ≡ some restart)
      → ((crash spawned a).state ≡ error) ⊎ IsRetried a (crash spawned a)
  unfolding crash step handle_child_exit handle_backoff_expired
  crash-outcome a spawned h restarts = elim (Bool-cases (is_error (crash spawned a).state)) [
    | inl e ↦ inl (ground arith)
    | inr e ↦ inr (record {
      state = ground arith;
      config = ground arith;
      delay = ground arith;
      count = ground arith;
      below = ground arith;
    })
  ]

  crash_loop-error :
      (a : Actor F) (spawns : List (Option ℕ))
      → a.state ≡ error
      → (crash_loop spawns a).state ≡ error
  unfolding crash_loop
  crash_loop-error a [] h = h
  crash_loop-error a (spawned ∷ later) h =
      crash_loop-error (crash spawned a) later (unfold crash in ground arith)

  -- What the loop keeps while the service is active.
  record IsCrashing (c : ServiceConfig F) (rounds : ℕ) (a : Actor F) : Type 0 where
    state : a.state ≡ active
    config : a.config ≡ c
    in_u64 : a.current_backoff < 2 ^ 64
    grown : (0 < a.current_backoff) ⊎ (limit c ≤ a.current_backoff)
    room : a.backoff_count + rounds < 2 ^ 32

  -- Fewer rounds than this are left until `error`.
  abbrev rounds_left : ServiceConfig F → Actor F → ℕ
  rounds_left c a = limit c - a.current_backoff + (if a.backoff_count == 0 then 1 else 0)

  module _ (c : ServiceConfig F)
      (grows : (m : ℕ)
        → 0 < m
        → m < 2 ^ 64
        → min (m + 1) (limit c) ≤ scaled w m (get_or c.backoff_factor w.two))
      (restarts : (c.on_failure ≡ none) ⊎ (c.on_failure ≡ some restart)) where
    -- A crash that is retried brings the limit nearer.
    IsRetried-IsCrashing :
        (a b : Actor F) (rounds : ℕ)
        → IsCrashing c (suc rounds) a
        → IsRetried a b
        → IsCrashing c rounds b × (rounds_left c b < rounds_left c a)
    unfolding backoff_limit_exceeded
    IsRetried-IsCrashing a b rounds k r =
        let factor = get_or c.backoff_factor w.two in
        let bounds =
          retry_bounds a.current_backoff (scaled w a.current_backoff factor) (limit c)
            a.backoff_count rounds k.grown (λ p. grows a.current_backoff p k.in_u64) k.room
            (rw k.config at r.below) in
        let delay = rw k.config at r.delay in
        (
          record {
            state = r.state;
            config = r.config ∙ k.config;
            in_u64 = rw delay (min_in_u64 w a.current_backoff factor (limit c));
            grown = rw delay bounds.0;
            room = rw r.count bounds.1;
          },
          rw (delay, r.count) bounds.2,
        )

    crash_loop-ends :
        (a : Actor F) (spawns : List (Option ℕ))
        → IsCrashing c (length spawns) a
        → rounds_left c a < length spawns
        → (crash_loop spawns a).state ≡ error
    unfolding crash_loop
    crash_loop-ends a [] k enough = absurd (omega arith)
    crash_loop-ends a (spawned ∷ later) k enough =
        elim (crash-outcome a spawned k.state (rw k.config restarts)) [
          | inl e ↦ crash_loop-error (crash spawned a) later e
          | inr r ↦
              let (k', less) = IsRetried-IsCrashing a (crash spawned a) (length later) k r in
              crash_loop-ends (crash spawned a) later k' (omega arith)
        ]

-- An active service with the policy to restart that crashes again and again is given up: after more
-- rounds than the limit of the backoff has milliseconds, whatever the spawns answer, the actor is in
-- `error`. The factor makes every delay of 64 bits longer, or at least as long as the limit, the current
-- delay is one of 64 bits and not 0, and the rounds do not overflow the counter of 32 bits.
pub crash_loop-error_state :
    {F : Type 0} (w : World F) (a : Actor F) (spawns : List (Option ℕ))
    → a.state ≡ active
    → (a.config.on_failure ≡ none) ⊎ (a.config.on_failure ≡ some restart)
    → 0 < a.current_backoff
    → a.current_backoff < 2 ^ 64
    → ((m : ℕ)
        → 0 < m
        → m < 2 ^ 64
        → min (m + 1) (limit a.config) ≤ scaled w m (get_or a.config.backoff_factor w.two))
    → limit a.config + 1 < length spawns
    → a.backoff_count + length spawns < 2 ^ 32
    → (crash_loop w spawns a).state ≡ error
crash_loop-error_state w a spawns runs restarts delay in_u64 grows enough room =
    crash_loop-ends w a.config grows restarts a spawns
      (record { state = runs; config = refl; in_u64 = in_u64; grown = inl delay; room = room })
      (few a.backoff_count)
  where
    few : (n : ℕ) → limit a.config - a.current_backoff + (if n == 0 then 1 else 0) < length spawns
    few n = ground arith
