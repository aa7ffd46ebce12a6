-- ===== src/Duration.antt =====
-- crates/vigild/src/duration.rs: `parse_duration`, as milliseconds.
pub mod Grammar
mod Laws
mod Sound
mod Ends
mod Tests
use vigil_rs.Prelude.{
  ℕ, zero, suc, ◌+◌, ◌-◌, ◌*◌, ◌^◌, Bool, ◌&&◌, Option, none, some, List, [], ◌∷◌, Text, is_digit,
  starts_with_char, ltb, ◌==◌, is_empty, drop, length, Result, ok, err, ◌>>=◌, ok_or, if◌then◌else◌,
}

pub data DurationError : Type 0 where
  empty expected_digit number_overflow unknown_suffix overflow : DurationError
  -- the model's own: the loop below has run out of fuel
  fuel_spent : DurationError

abbrev pub u64_mod : ℕ
u64_mod = 2 ^ 64

-- `&rest[..num_end]` and `&rest[num_end..]`
take_digits : Text → Text
take_digits [] = []
take_digits (c ∷ rest) = if is_digit c then c ∷ take_digits rest else []

drop_digits : Text → Text
drop_digits [] = []
drop_digits (c ∷ rest) = if is_digit c then drop_digits rest else c ∷ rest

decimal_from : ℕ → Text → ℕ
decimal_from n [] = n
decimal_from n (c ∷ rest) = decimal_from (n * 10 + (c - b'0')) rest

-- the number that a run of digits writes
pub decimal : Text → ℕ
unfolding decimal_from
decimal digits = decimal_from 0 digits

-- `str::parse::<u64>` on a run of digits
parse_u64 : Text → Option ℕ
parse_u64 digits = let n = decimal digits in if ltb n u64_mod then some n else none

checked_mul : ℕ → ℕ → Option ℕ
checked_mul a b = let n = a * b in if ltb n u64_mod then some n else none

checked_add : ℕ → ℕ → Option ℕ
checked_add a b = let n = a + b in if ltb n u64_mod then some n else none

-- the multiplier and the length of the suffix that the text begins with
suffix : Text → Option (ℕ × ℕ)
suffix rest =
    if starts_with_char b'm' rest && starts_with_char b's' (drop 1 rest)
    then some (1, 2)
    else if starts_with_char b's' rest
    then some (1_000, 1)
    else if starts_with_char b'm' rest
    then some (60_000, 1)
    else if starts_with_char b'h' rest
    then some (3_600_000, 1)
    else none

-- One round of the loop: the new total, and what is left to read.
component : ℕ → Text → Result DurationError (ℕ × Text)
unfolding take_digits drop_digits parse_u64 checked_mul checked_add suffix decimal
component total rest = if is_empty (take_digits rest) then err expected_digit else do
  num ← ok_or (parse_u64 (take_digits rest)) number_overflow
  (mult, suffix_len) ← ok_or (suffix (drop_digits rest)) unknown_suffix
  part ← ok_or (checked_mul num mult) overflow
  total' ← ok_or (checked_add total part) overflow
  ok (total', drop suffix_len (drop_digits rest))

-- `while !rest.is_empty()`
components : ℕ → ℕ → Text → Result DurationError ℕ
components fuel total [] = ok total
components zero total (c ∷ rest) = err fuel_spent
components (suc fuel) total (c ∷ rest) = component total (c ∷ rest) >>= λ r. components fuel r.0 r.1

-- Each round reads a character at least, so the length of the text is fuel enough.
unfoldable pub parse_duration : Text → Result DurationError ℕ
unfolding component components
parse_duration s = if is_empty s then err empty else components (length s) 0 s
