-- ===== src/Duration/Laws.antt =====
-- `parse_duration` accepts exactly the texts of the grammar whose value fits into a `u64`.
use native.Mathlib.Nat.{pow-suc}
use vigil_rs.Prelude.{
  ℕ, zero, suc, ◌+◌, ◌-◌, ◌*◌, ◌^◌, ◌≤◌, ◌<◌, true, false, ◌≡◌, refl, ap, ◌∙◌, some, List, [], ◌∷◌,
  ◌++◌, Text, is_digit, all, length, length-append, ok, arith, drop,
}
use vigil_rs.Duration.{
  u64_mod, take_digits, drop_digits, decimal_from, decimal, parse_u64, suffix, component,
  components, parse_duration, checked_mul, checked_add,
}
use vigil_rs.Duration.Grammar.{
  TimeUnit, millis, seconds, minutes, hours, unit_text, unit_millis, Component, number_text,
  IsNumber, place_value, component_millis, text, millis_of, AreNumbers,
}

-- The text does not go on with a digit.
abbrev NoDigit : Text → Type 0
NoDigit [] = Unit {0}
NoDigit (c ∷ rest) = is_digit c ≡ false

module _ (rest : Text) (stop : NoDigit rest) where
  take_digits-append : (ds : Text) → all is_digit ds ≡ true → take_digits (ds ++ rest) ≡ ds
  unfolding take_digits
  take_digits-append [] h = take_nothing rest stop
    where
      take_nothing : (r : Text) → NoDigit r → take_digits r ≡ []
      take_nothing [] s = refl
      take_nothing (c ∷ r) s = ground arith
  take_digits-append (d ∷ ds) h = ground (arith, take_digits-append ds)

  drop_digits-append : (ds : Text) → all is_digit ds ≡ true → drop_digits (ds ++ rest) ≡ rest
  unfolding drop_digits
  drop_digits-append [] h = drop_nothing rest stop
    where
      drop_nothing : (r : Text) → NoDigit r → drop_digits r ≡ r
      drop_nothing [] s = refl
      drop_nothing (c ∷ r) s = ground arith
  drop_digits-append (d ∷ ds) h = ground (arith, drop_digits-append ds)

unit_text-NoDigit : (u : TimeUnit) (rest : Text) → NoDigit (unit_text u ++ rest)
unit_text-NoDigit millis rest = refl
unit_text-NoDigit seconds rest = refl
unit_text-NoDigit minutes rest = refl
unit_text-NoDigit hours rest = refl

regroup : (n e p q r : ℕ) → q ≡ p * 10 → (n * 10 + e) * p + r ≡ n * q + (e * p + r)
regroup n e p q r h = rw h (omega arith)

decimal_from-place_value :
    (n : ℕ) (ds : Text) → decimal_from n ds ≡ n * 10 ^ length ds + place_value ds
unfolding decimal_from
decimal_from-place_value n [] = omega arith
decimal_from-place_value n (d ∷ ds) =
    decimal_from-place_value (n * 10 + (d - b'0')) ds
    ∙ regroup n (d - b'0') (10 ^ length ds) (10 ^ suc (length ds)) (place_value ds)
        (pow-suc 10 (length ds))

pub decimal-place_value : (ds : Text) → decimal ds ≡ place_value ds
unfolding decimal
decimal-place_value ds = omega (arith, decimal_from-place_value 0 ds)

-- What follows a unit in a text of the grammar is the end or a digit.
abbrev NoLetter : Text → Type 0
NoLetter [] = Unit {0}
NoLetter (c ∷ rest) = is_digit c ≡ true

text-NoLetter : (cs : List Component) → AreNumbers cs → NoLetter (text cs)
text-NoLetter [] h = tt
text-NoLetter (c ∷ cs) h = ground arith

suffix-unit_text :
    (u : TimeUnit) (rest : Text)
    → NoLetter rest
    → suffix (unit_text u ++ rest) ≡ some (unit_millis u, length (unit_text u))
unfolding suffix
suffix-unit_text millis rest h = refl
suffix-unit_text seconds rest h = refl
suffix-unit_text minutes [] h = refl
suffix-unit_text minutes (c ∷ rest) h = ground arith
suffix-unit_text hours rest h = refl

drop-unit_text :
    (u : TimeUnit) (rest : Text) → drop (length (unit_text u)) (unit_text u ++ rest) ≡ rest
drop-unit_text millis rest = refl
drop-unit_text seconds rest = refl
drop-unit_text minutes rest = refl
drop-unit_text hours rest = refl

parse_u64-of_lt : (ds : Text) → decimal ds < u64_mod → parse_u64 ds ≡ some (decimal ds)
unfolding parse_u64
parse_u64-of_lt ds h = ground arith

checked_mul-of_lt : (a b : ℕ) → a * b < u64_mod → checked_mul a b ≡ some (a * b)
unfolding checked_mul
checked_mul-of_lt a b h = ground arith

checked_add-of_lt : (a b : ℕ) → a + b < u64_mod → checked_add a b ≡ some (a + b)
unfolding checked_add
checked_add-of_lt a b h = ground arith

le-mul-unit_millis : (n : ℕ) (u : TimeUnit) → n ≤ n * unit_millis u
le-mul-unit_millis n millis = omega arith
le-mul-unit_millis n seconds = omega arith
le-mul-unit_millis n minutes = omega arith
le-mul-unit_millis n hours = omega arith

-- One round of the loop reads one component.
component-text :
    (total : ℕ) (c : Component) (rest : Text)
    → IsNumber c
    → NoLetter rest
    → total + component_millis c < u64_mod
    → component total (number_text c ++ (unit_text c.unit ++ rest))
      ≡ ok (total + component_millis c, rest)
unfolding component
component-text total c rest digits after fits =
    let tail = unit_text c.unit ++ rest in
    let stop = unit_text-NoDigit c.unit rest in
    let value = decimal-place_value (number_text c) in
    let small = le-mul-unit_millis (place_value (number_text c)) c.unit in
    rw (
      component,
      take_digits-append tail stop (number_text c) digits,
      drop_digits-append tail stop (number_text c) digits,
      suffix-unit_text c.unit rest after,
      drop-unit_text c.unit rest,
      parse_u64-of_lt (number_text c) (omega arith),
      value,
      checked_mul-of_lt (place_value (number_text c)) (unit_millis c.unit) (omega arith),
      checked_add-of_lt total (component_millis c) fits,
    )

-- The loop reads them all, on as much fuel as there are characters.
components-text :
    (fuel total : ℕ) (cs : List Component)
    → AreNumbers cs
    → total + millis_of cs < u64_mod
    → length (text cs) ≤ fuel
    → components fuel total (text cs) ≡ ok (total + millis_of cs)
unfolding components
components-text fuel total [] h fits enough = ap ok (omega arith)
components-text zero total (c ∷ cs) h fits enough = absurd (omega arith)
components-text (suc fuel) total (c ∷ cs) h fits enough =
    rw (component-text total c (text cs) h.0 (text-NoLetter cs h.1) (omega arith)) (
      components-text fuel (total + component_millis c) cs h.1 (omega arith) (
        omega (
          arith,
          length-append c.others (unit_text c.unit ++ text cs),
          length-append (unit_text c.unit) (text cs),
        ))
      ∙ ap ok (omega arith))

-- A text of the grammar whose value is below 2^64 is accepted, with that value.
pub parse_duration-text :
    (c : Component) (cs : List Component)
    → AreNumbers (c ∷ cs)
    → millis_of (c ∷ cs) < u64_mod
    → parse_duration (text (c ∷ cs)) ≡ ok (millis_of (c ∷ cs))
unfolding parse_duration
parse_duration-text c cs h fits =
    components-text (length (text (c ∷ cs))) 0 (c ∷ cs) h (omega arith) (omega arith)
    ∙ ap ok (omega arith)
