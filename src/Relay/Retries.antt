-- ===== src/Relay/Retries.antt =====
-- When the relay gives a source up.
use vigil_rs.Prelude.{
  ℕ, ◌+◌, ◌≤◌, ◌<◌, ◌≡◌, ◌↔◌, max, true, false, none, some, List, [], ◌∷◌, arith, Option-cases, inl,
  inr,
}
use vigil_rs.Relay.Http.{ReconnectConfig, bump_failures}
use vigil_rs.Relay.Reconnect.{
  Attempt, streamed, bad_status, unreachable, Loop, new_loop, fail, attempt, pause, run,
  with_failures,
}

-- How many failures there were in a row after an attempt, where there were `n` before it: a
-- stream begins a new row, and its unclean end is the first failure of it.
abbrev pub in_a_row : Attempt → ℕ → ℕ
in_a_row (streamed true) n = 0
in_a_row (streamed false) n = 1
in_a_row bad_status n = n + 1
in_a_row unreachable n = n + 1

-- the most failures in a row
abbrev pub longest : ℕ → List Attempt → ℕ
longest n [] = 0
longest n (a ∷ rest) = max (in_a_row a n) (longest (in_a_row a n) rest)

attempt-failures :
    (cfg : ReconnectConfig) (a : Attempt) (s : Loop)
    → (attempt cfg a s ≡ none → (0 < cfg.max_retries) × (cfg.max_retries ≤ in_a_row a s.failures))
      × ((t : Loop)
          → attempt cfg a s ≡ some t
          → (t.failures ≡ in_a_row a s.failures)
            × (0 < cfg.max_retries → in_a_row a s.failures < cfg.max_retries))
unfolding attempt fail with_failures bump_failures
attempt-failures cfg (streamed true) s = (λ e. ground arith, λ t e. ground arith)
attempt-failures cfg (streamed false) s = (λ e. ground arith, λ t e. ground arith)
attempt-failures cfg bad_status s = (λ e. ground arith, λ t e. ground arith)
attempt-failures cfg unreachable s = (λ e. ground arith, λ t e. ground arith)

run-none_iff :
    (cfg : ReconnectConfig) (attempts : List Attempt) (s : Loop)
    → (run cfg attempts s ≡ none)
      ↔ ((0 < cfg.max_retries) × (cfg.max_retries ≤ longest s.failures attempts))
unfolding run pause
run-none_iff cfg [] s = ground arith
run-none_iff cfg (a ∷ rest) s = elim (Option-cases (attempt cfg a s)) [
  | inl e ↦ let given_up = (attempt-failures cfg a s).0 e in rw (run, e) (ground (arith, given_up))
  | inr (t, e) ↦
      let (same, below) = (attempt-failures cfg a s).1 t e in
      let later = run-none_iff cfg rest (pause cfg t) in
      rw (run, e) (ground (arith, same, below, later))
]

-- A source is given up exactly if a number of retries is set and so many requests or streams failed in
-- a row, where each stream that begins begins a new row.
pub run-new_loop-none_iff :
    (cfg : ReconnectConfig) (attempts : List Attempt)
    → (run cfg attempts (new_loop cfg) ≡ none)
      ↔ ((0 < cfg.max_retries) × (cfg.max_retries ≤ longest 0 attempts))
unfolding new_loop
run-new_loop-none_iff cfg attempts = run-none_iff cfg attempts (new_loop cfg)
