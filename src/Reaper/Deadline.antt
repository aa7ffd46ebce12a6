-- ===== src/Reaper/Deadline.antt =====
-- The loop of `wait_child` behind `ECHILD` ends, and finds a status recorded in time.
use vigil_rs.Prelude.{
  ℕ, zero, suc, ◌+◌, ◌*◌, ◌≤◌, ◌<◌, ◌≡◌, refl, ap, sym, ◌∙◌, Option, none, some, leb, if◌then◌else◌,
  arith, Option-cases, inl, inr,
}
use vigil_rs.Reaper.{
  Reaped, reaped_lookup, status_of, Waited, status, echild, other_error, look, look_up, wait_child,
}

look_early :
    (pid deadline now : ℕ) (entries : Reaped)
    → look pid deadline now entries ≡ none
    → (now < deadline) × (status_of pid entries ≡ none)
unfolding look
look_early pid deadline now entries h = ground arith

look-some :
    (pid deadline now : ℕ) (entries : Reaped) (answer : Waited)
    → look pid deadline now entries ≡ some answer
    → (status_of pid entries ≡ none → deadline ≤ now)
      × ((raw : ℕ) → status_of pid entries ≡ some raw → answer ≡ status raw)
unfolding look
look-some pid deadline now entries answer h = (λ e. ground arith, λ raw e. ground arith)

module _ (clock : ℕ → ℕ) (table : ℕ → Reaped) (pid deadline i left : ℕ) where
  look_up_sleeps :
      look pid deadline (clock i) (table (clock i)) ≡ none
      → look_up clock table pid deadline i (suc left)
        ≡ look_up clock table pid deadline (suc i) left
  unfolding look_up
  look_up_sleeps e = rw (look_up, e) refl

  look_up_answers :
      (answer : Waited)
      → look pid deadline (clock i) (table (clock i)) ≡ some answer
      → look_up clock table pid deadline i (suc left) ≡ some answer
  unfolding look_up
  look_up_answers answer e = rw (look_up, e) refl

module _ (clock : ℕ → ℕ) (table : ℕ → Reaped) (sleeps : (i : ℕ) → clock i + 5 ≤ clock (suc i))
    (pid deadline : ℕ) where
  look_up_ends :
      (i left : ℕ)
      → deadline ≤ clock i + 5 * left
      → (answer : Waited) × (look_up clock table pid deadline i (suc left) ≡ some answer)
  look_up_ends i zero h = elim (Option-cases (look pid deadline (clock i) (table (clock i)))) [
    | inl e ↦ absurd (omega (arith, (look_early pid deadline (clock i) (table (clock i)) e).0))
    | inr (answer, e) ↦ (answer, look_up_answers clock table pid deadline i 0 answer e)
  ]
  look_up_ends i (suc left) h =
      let (answer, later) = look_up_ends (suc i) left (omega (arith, sleeps i)) in
      elim (Option-cases (look pid deadline (clock i) (table (clock i)))) [
        | inl e ↦ (answer, look_up_sleeps clock table pid deadline i (suc left) e ∙ later)
        | inr (answer, e) ↦ (answer, look_up_answers clock table pid deadline i (suc left) answer e)
      ]

module _ (clock : ℕ → ℕ) (table : ℕ → Reaped) (pid deadline recorded raw : ℕ)
    (in_time : recorded ≤ deadline)
    (kept : (i : ℕ)
      → status_of pid (table (clock i)) ≡ (if leb recorded (clock i) then some raw else none)) where
  answer-recovers :
      (i : ℕ) (answer : Waited)
      → look pid deadline (clock i) (table (clock i)) ≡ some answer
      → answer ≡ status raw
  answer-recovers i answer e =
      let facts = look-some pid deadline (clock i) (table (clock i)) answer e in
      ground (arith, kept i, facts.0, facts.1 raw)

  look_up-recovers :
      (i left : ℕ) (answer : Waited)
      → look_up clock table pid deadline i left ≡ some answer
      → answer ≡ status raw
  unfolding look_up
  look_up-recovers i zero answer h = cc
  look_up-recovers i (suc left) answer h =
      elim (Option-cases (look pid deadline (clock i) (table (clock i)))) [
        | inl e ↦
            look_up-recovers (suc i) left answer
              (sym (look_up_sleeps clock table pid deadline i left e) ∙ h)
        | inr (found, e) ↦ grind (
          arith,
          look_up_answers clock table pid deadline i left found e,
          answer-recovers i found e,
          h,
        )
      ]

-- The wait always ends: whatever `Child::wait` answered and whatever is recorded meanwhile, 41 rounds
-- that lie 5 ms apart at least are enough for an answer.
pub wait_child_ends :
    (clock : ℕ → ℕ) (table : ℕ → Reaped)
    → ((i : ℕ) → clock i + 5 ≤ clock (suc i))
    → (id : Option ℕ) (first : Waited)
    → (answer : Waited) × (wait_child clock table 41 id first ≡ some answer)
unfolding wait_child
wait_child_ends clock table sleeps id (status raw) = (status raw, refl)
wait_child_ends clock table sleeps id other_error = (other_error, refl)
wait_child_ends clock table sleeps none echild = (echild, refl)
wait_child_ends clock table sleeps (some pid) echild =
    look_up_ends clock table sleeps pid (clock 0 + reaped_lookup) 0 40 (omega arith)

-- A waiter whose child the reaper collected gets the status: `Child::wait` answered `ECHILD`, and at
-- some time, at most 200 ms later, the status is recorded, and the rounds from then on find it.
-- Then 41 rounds that lie 5 ms apart at least give just that status.
pub wait_child-recovers :
    (clock : ℕ → ℕ) (table : ℕ → Reaped)
    → ((i : ℕ) → clock i + 5 ≤ clock (suc i))
    → (pid recorded raw : ℕ) → recorded ≤ clock 0 + reaped_lookup
    → ((i : ℕ)
        → status_of pid (table (clock i)) ≡ (if leb recorded (clock i) then some raw else none))
    → wait_child clock table 41 (some pid) echild ≡ some (status raw)
unfolding wait_child
wait_child-recovers clock table sleeps pid recorded raw in_time kept =
    let (answer, e) =
      look_up_ends clock table sleeps pid (clock 0 + reaped_lookup) 0 40 (omega arith) in
    e
    ∙ ap some (
        look_up-recovers clock table pid (clock 0 + reaped_lookup) recorded raw in_time kept 0 41
          answer e)
