-- ===== src/Duration/Sound.antt =====
-- What `parse_duration` accepts is a text of the grammar.
use mathlib.Core.Path.{subst₂}
use vigil_rs.Prelude.{
  ℕ, zero, suc, ◌+◌, ◌*◌, ◌<◌, ◌&&◌, true, ◌≡◌, refl, ap, ◌∙◌, some, [], ◌∷◌, ◌++◌, Text, is_digit,
  all, ok, arith, Bool-cases, >>=-eq-ok, drop, ◌==◌, List, Option, none, inl, inr, ok_or, ◌≢◌,
  Option-cases, is_empty, length,
}
use vigil_rs.Duration.{
  u64_mod, take_digits, drop_digits, parse_u64, checked_mul, checked_add, suffix, component,
  components, parse_duration,
}
use vigil_rs.Duration.Grammar.{
  TimeUnit, millis, seconds, minutes, hours, unit_text, unit_millis, Component, number_text,
  IsNumber, place_value, component_millis, text, millis_of, AreNumbers,
}
use vigil_rs.Duration.Laws.{decimal-place_value}

take_digits-append-drop_digits : (s : Text) → s ≡ take_digits s ++ drop_digits s
unfolding take_digits drop_digits
take_digits-append-drop_digits [] = refl
take_digits-append-drop_digits (c ∷ s) = ground (arith, take_digits-append-drop_digits s)

all-take_digits : (s : Text) → all is_digit (take_digits s) ≡ true
unfolding take_digits
all-take_digits [] = refl
all-take_digits (c ∷ s) = ground (arith, all-take_digits s)

-- `u` is the unit that the text begins with.
record IsSuffix (rest : Text) (m l : ℕ) : Type 0 where
  unit : TimeUnit
  mult : m ≡ unit_millis unit
  split : rest ≡ unit_text unit ++ drop l rest

suffix-IsSuffix : (rest : Text) {m l : ℕ} → suffix rest ≡ some (m, l) → IsSuffix rest m l
unfolding suffix
suffix-IsSuffix [] h = cc
suffix-IsSuffix (c ∷ []) h = elim (Bool-cases (c == b's')) [
  | inl is_s ↦ record { unit = seconds; mult = ground arith; split = ground arith }
  | inr not_s ↦ elim (Bool-cases (c == b'm')) [
    | inl is_m ↦ record { unit = minutes; mult = ground arith; split = ground arith }
    | inr not_m ↦ record { unit = hours; mult = ground arith; split = ground arith }
  ]
]
suffix-IsSuffix (c ∷ d ∷ r) h = elim (Bool-cases (c == b'm' && d == b's')) [
  | inl is_ms ↦ record { unit = millis; mult = ground arith; split = ground arith }
  | inr not_ms ↦ elim (Bool-cases (c == b's')) [
    | inl is_s ↦ record { unit = seconds; mult = ground arith; split = ground arith }
    | inr not_s ↦ elim (Bool-cases (c == b'm')) [
      | inl is_m ↦ record { unit = minutes; mult = ground arith; split = ground arith }
      | inr not_m ↦ record { unit = hours; mult = ground arith; split = ground arith }
    ]
  ]
]

-- What one round of the loop has read.
record IsRead (total total' : ℕ) (before after : Text) : Type 0 where
  read : Component
  digits : IsNumber read
  split : before ≡ number_text read ++ (unit_text read.unit ++ after)
  sum : total' ≡ total + component_millis read
  fits : total' < u64_mod

parse_u64-eq_some : (ds : Text) {n : ℕ} → parse_u64 ds ≡ some n → n ≡ place_value ds
unfolding parse_u64
parse_u64-eq_some ds h = ground (arith, decimal-place_value ds)

checked_mul-eq_some : (a b : ℕ) {n : ℕ} → checked_mul a b ≡ some n → n ≡ a * b
unfolding checked_mul
checked_mul-eq_some a b h = ground arith

checked_add-eq_some : (a b : ℕ) {n : ℕ} → checked_add a b ≡ some n → (n ≡ a + b) × (n < u64_mod)
unfolding checked_add
checked_add-eq_some a b h = ground arith

ok_or-eq-ok {ℓ κ} :
    {E : Type κ} {A : Type ℓ} (o : Option A) (e : E) {a : A} → ok_or o e ≡ ok a → o ≡ some a
ok_or-eq-ok (some a) e h = cc
ok_or-eq-ok none e h = cc

module _ (total : ℕ) {n m l part total' : ℕ} (rest tail : Text) where
  IsRead-of_steps :
      (ds : Text)
      → ds ≢ []
      → rest ≡ ds ++ tail
      → all is_digit ds ≡ true
      → parse_u64 ds ≡ some n
      → suffix tail ≡ some (m, l)
      → checked_mul n m ≡ some part
      → checked_add total part ≡ some total'
      → IsRead total total' rest (drop l tail)
  IsRead-of_steps [] nonempty split digits parsed unit multiplied added = absurd (nonempty refl)
  IsRead-of_steps (d ∷ ds) nonempty split digits parsed unit multiplied added =
      let s = suffix-IsSuffix tail unit in
      let value = parse_u64-eq_some (d ∷ ds) parsed in
      let product = checked_mul-eq_some n m multiplied in
      let sum = checked_add-eq_some total part added in
      record {
        read = record { first = d; others = ds; unit = s.unit };
        digits = digits;
        split = split ∙ ap (λ (t : Text). (d ∷ ds) ++ t) s.split;
        sum = cc (value, product, sum.0, s.mult);
        fits = sum.1;
      }

component-IsRead :
    (total : ℕ) (rest : Text) {total' : ℕ} {rest' : Text}
    → component total rest ≡ ok (total', rest')
    → IsRead total total' rest rest'
unfolding component
component-IsRead total rest {total'} {rest'} h = elim (Bool-cases (is_empty (take_digits rest))) [
  | inl empty ↦ absurd (ground arith)
  | inr nonempty ↦ elim (Option-cases (parse_u64 (take_digits rest))) [
    | inl e ↦ absurd (ground arith)
    | inr (n, parsed) ↦ elim (Option-cases (suffix (drop_digits rest))) [
      | inl e ↦ absurd (ground arith)
      | inr ((m, l), unit) ↦ elim (Option-cases (checked_mul n m)) [
        | inl e ↦ absurd (ground arith)
        | inr (part, multiplied) ↦ elim (Option-cases (checked_add total part)) [
          | inl e ↦ absurd (ground arith)
          | inr (sum, added) ↦
              let same : (sum ≡ total') × (drop l (drop_digits rest) ≡ rest') = ground arith in
              subst₂ (λ t r. IsRead total t rest r) same.0 same.1
                (IsRead-of_steps total rest (drop_digits rest) (take_digits rest)
                  (λ e. ground arith) (take_digits-append-drop_digits rest) (all-take_digits rest)
                  parsed unit multiplied added)
        ]
      ]
    ]
  ]
]

-- The components that the loop has read.
pub record IsDuration (total total' : ℕ) (s : Text) : Type 0 where
  pub read : List Component
  pub digits : AreNumbers read
  pub split : s ≡ text read
  pub sum : total' ≡ total + millis_of read

IsDuration-cons :
    {total total' n : ℕ} {before after : Text}
    → IsRead total total' before after
    → IsDuration total' n after
    → IsDuration total n before
IsDuration-cons r d = record {
  read = r.read ∷ d.read;
  digits = (r.digits, d.digits);
  split = r.split ∙ ap (λ (t : Text). number_text r.read ++ (unit_text r.read.unit ++ t)) d.split;
  sum = omega (arith, r.sum, d.sum);
}

components-IsDuration :
    (fuel total : ℕ) (s : Text) {n : ℕ}
    → total < u64_mod
    → components fuel total s ≡ ok n
    → IsDuration total n s × (n < u64_mod)
unfolding components
components-IsDuration fuel total [] small h =
    (record { read = []; digits = tt; split = refl; sum = ground arith }, ground arith)
components-IsDuration zero total (c ∷ s) small h = cc
components-IsDuration (suc fuel) total (c ∷ s) small h =
    let ((total', s'), round, rest) = >>=-eq-ok (component total (c ∷ s)) _ h in
    let read = component-IsRead total (c ∷ s) round in
    let (d, fits) = components-IsDuration fuel total' s' read.fits rest in
    (IsDuration-cons read d, fits)

-- A text that is accepted is one of the grammar, not empty; the value is the sum of its
-- components, and is below 2^64.
pub parse_duration-IsDuration :
    (s : Text) {n : ℕ} → parse_duration s ≡ ok n → IsDuration 0 n s × (n < u64_mod) × (s ≢ [])
unfolding parse_duration
parse_duration-IsDuration [] h = cc
parse_duration-IsDuration (c ∷ s) h =
    let (d, fits) = components-IsDuration (length (c ∷ s)) 0 (c ∷ s) (omega arith) h in
    (d, fits, λ e. ground arith)
