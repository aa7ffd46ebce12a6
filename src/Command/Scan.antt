-- ===== src/Command/Scan.antt =====
-- Searching in command strings: the methods of `str` that crates/vigild/src/process_util/parse.rs
-- calls, and its `find_unquoted`. The source counts bytes there; every character that it looks for
-- is ASCII, so a text is cut at the same places.
use vigil_rs.Prelude.{
  starts_with, ℕ, ◌+◌, Bool, true, false, ◌&&◌, ◌||◌, Option, none, some, [], ◌∷◌, Text, leb, ◌==◌,
  if◌then◌else◌,
}
use vigil_rs.Command.Words.{Quotes, unquoted, plain, quotes_next, no_quotes}

-- `char::is_whitespace`
unfoldable pub is_whitespace : ℕ → Bool
is_whitespace c =
    (leb 0x09 c && leb c 0x0D)
    || c == 0x20
    || c == 0x85
    || c == 0xA0
    || c == 0x1680
    || (leb 0x2000 c && leb c 0x200A)
    || c == 0x2028
    || c == 0x2029
    || c == 0x202F
    || c == 0x205F
    || c == 0x3000

trim_start : Text → Text
unfolding is_whitespace
trim_start [] = []
trim_start (c ∷ rest) = if is_whitespace c then trim_start rest else c ∷ rest

end_with : ℕ → Text → Text
unfolding is_whitespace
end_with c [] = if is_whitespace c then [] else c ∷ []
end_with c (d ∷ ds) = c ∷ d ∷ ds

-- nothing is left of a run of white space at the end
trim_end : Text → Text
unfolding end_with
trim_end [] = []
trim_end (c ∷ rest) = end_with c (trim_end rest)

-- `str::trim`
unfoldable pub trim : Text → Text
unfolding trim_start trim_end
trim s = trim_end (trim_start s)

-- The loop of `find_unquoted`: the position of the next match outside quotes.
find_unquoted_from : Text → ℕ → Quotes → Text → Option ℕ
unfolding starts_with
find_unquoted_from needle i q [] = none
find_unquoted_from needle i q (c ∷ rest) =
    elim (plain q c && unquoted q && starts_with (c ∷ rest) needle) [
      | true ↦ some i
      | false ↦ find_unquoted_from needle (i + 1) (quotes_next q c) rest
    ]

unfoldable pub find_unquoted : Text → Text → Option ℕ
unfolding find_unquoted_from
find_unquoted s needle = find_unquoted_from needle 0 no_quotes s

found_later : Bool → Option ℕ → Option ℕ
found_later here (some i) = some (i + 1)
found_later true none = some 0
found_later false none = none

-- `str::rfind` of a needle that is not empty: the position of its last match
unfoldable pub rfind : Text → Text → Option ℕ
unfolding starts_with found_later
rfind [] needle = none
rfind (c ∷ rest) needle = found_later (starts_with (c ∷ rest) needle) (rfind rest needle)
