-- ===== src/Duration/Ends.antt =====
-- The loop of the parser ends within its fuel.
use vigil_rs.Prelude.{
  ℕ, zero, suc, ◌≤◌, ◌<◌, false, ◌≡◌, ◌≢◌, refl, [], ◌∷◌, Text, length, drop, length-drop, Result,
  ok, err, is_empty, arith, Option, none, some, ok_or, ◌>>=◌, Bool-cases, inl, inr, sym,
}
use vigil_rs.Duration.{
  DurationError, fuel_spent, expected_digit, number_overflow, unknown_suffix, overflow, take_digits,
  drop_digits, component, components, parse_duration, parse_u64, suffix, checked_mul, checked_add,
}

length-drop_digits : (s : Text) → length (drop_digits s) ≤ length s
unfolding drop_digits
length-drop_digits [] = omega arith
length-drop_digits (c ∷ s) = ground (arith, length-drop_digits s)

-- A digit that is taken is dropped.
length-take_digits :
    (s : Text) → is_empty (take_digits s) ≡ false → length (drop_digits s) < length s
unfolding take_digits drop_digits
length-take_digits [] h = cc
length-take_digits (c ∷ s) h = ground (arith, length-drop_digits s)

-- A round fails by an error of the text, or leaves a shorter rest.
record IsRound (rest : Text) (r : Result DurationError (ℕ × Text)) : Type 0 where
  error : r ≢ err fuel_spent
  shorter : (total : ℕ) (rest' : Text) → r ≡ ok (total, rest') → length rest' < length rest

err-IsRound : (rest : Text) (e : DurationError) → e ≢ fuel_spent → IsRound rest (err e)
err-IsRound rest e h = record { error = λ same. h (cc same); shorter = λ total rest' same. cc }

-- A step that fails with some other error, or goes on with what it found.
ok_or-IsRound :
    {A : Type 0} (rest : Text) (o : Option A) (e : DurationError)
    (f : A → Result DurationError (ℕ × Text))
    → e ≢ fuel_spent
    → ((a : A) → IsRound rest (f a))
    → IsRound rest (ok_or o e >>= f)
ok_or-IsRound rest none e f h each = err-IsRound rest e h
ok_or-IsRound rest (some a) e f h each = each a

component-IsRound : (total : ℕ) (rest : Text) → IsRound rest (component total rest)
unfolding component
component-IsRound total rest = elim (Bool-cases (is_empty (take_digits rest))) [
  | inl empty ↦ rw empty (err-IsRound rest expected_digit (λ e. cc))
  | inr nonempty ↦ rw nonempty (
      ok_or-IsRound rest (parse_u64 (take_digits rest)) number_overflow _ (λ e. cc)
        (λ num.
          ok_or-IsRound rest (suffix (drop_digits rest)) unknown_suffix _ (λ e. cc)
            (λ unit.
              ok_or-IsRound rest (checked_mul num unit.0) overflow _ (λ e. cc)
                (λ part.
                  ok_or-IsRound rest (checked_add total part) overflow _ (λ e. cc)
                    (λ sum. left_over sum unit.1 nonempty)))))
]
  where
    left_over :
        (sum suffix_len : ℕ)
        → is_empty (take_digits rest) ≡ false
        → IsRound rest (ok (sum, drop suffix_len (drop_digits rest)))
    left_over sum suffix_len nonempty = record {
      error = λ e. cc;
      shorter = λ total' rest' e.
          let same : drop suffix_len (drop_digits rest) ≡ rest' = cc e in
          rw (sym same) (
            omega
              (arith, length-drop suffix_len (drop_digits rest), length-take_digits rest nonempty));
    }

round_ends :
    (s : Text) (r : Result DurationError (ℕ × Text)) (next : ℕ × Text → Result DurationError ℕ)
    → IsRound s r
    → ((total : ℕ) (rest : Text) → length rest < length s → next (total, rest) ≢ err fuel_spent)
    → (r >>= next) ≢ err fuel_spent
round_ends s (err e) next h ends = λ same. h.error (cc same)
round_ends s (ok (total, rest)) next h ends = ends total rest (h.shorter total rest refl)

components_end :
    (fuel total : ℕ) (s : Text) → length s ≤ fuel → components fuel total s ≢ err fuel_spent
unfolding components
components_end fuel total [] enough = λ e. cc
components_end zero total (c ∷ s) enough = absurd (omega (arith, enough))
components_end (suc fuel) total (c ∷ s) enough =
    round_ends (c ∷ s) (component total (c ∷ s)) _ (component-IsRound total (c ∷ s))
      (λ total' rest shorter. components_end fuel total' rest (omega (arith, enough, shorter)))

-- The parser ends on every text: its loop never runs out of the fuel it is given, so that it returns a
-- value or one of the errors of the source.
pub parse_duration_ends : (s : Text) → parse_duration s ≢ err fuel_spent
unfolding parse_duration
parse_duration_ends [] = λ e. cc
parse_duration_ends (c ∷ s) = components_end (length (c ∷ s)) 0 (c ∷ s) (omega arith)
