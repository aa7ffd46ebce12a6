-- ===== src/Command.antt =====
-- crates/vigild/src/process_util/parse.rs: command strings into argument vectors. A text is the
-- list of its code points.
pub mod Words
pub mod Scan
mod Spelling
mod Laws
mod Tests
use vigil_rs.Prelude.{
  ℕ, ◌+◌, Option, none, some, List, [], ◌∷◌, ◌++◌, Text, ltb, leb, take, drop, ◌-◌, Result, ok, err,
  ◌>>=◌, ok_or, if◌then◌else◌,
}
use vigil_rs.Command.Words.{CommandError, unmatched_bracket, malformed_default_args, shell_words}
use vigil_rs.Command.Scan.{trim, find_unquoted, rfind}

-- ` [ `, ` ]`
abbrev pub open_bracket : Text
open_bracket = b' ' ∷ b'[' ∷ b' ' ∷ []

abbrev pub close_bracket : Text
close_bracket = b' ' ∷ b']' ∷ []

-- `s[from..to]`
slice : ℕ → ℕ → Text → Text
slice from to s = take (to - from) (drop from s)

-- the text has the section `[ ... ]`, which opens at `open_at`
with_defaults : Text → ℕ → Result CommandError (List Text)
unfolding slice rfind shell_words
with_defaults s open_at = do
  close_at ← ok_or (rfind s close_bracket) unmatched_bracket
  if ltb close_at open_at then err malformed_default_args else do
    args ← shell_words (take open_at s)
    let defaults = if leb (open_at + 3) close_at then slice (open_at + 3) close_at s else []
    extra ← shell_words defaults
    ok (args ++ extra)

-- the text as a whole, or in two parts
parse_at : Option ℕ → Text → Result CommandError (List Text)
unfolding with_defaults shell_words
parse_at none s = shell_words s
parse_at (some open_at) s = with_defaults s open_at

unfoldable pub parse_command : Text → Result CommandError (List Text)
unfolding parse_at find_unquoted trim
parse_command s = parse_at (find_unquoted (trim s) open_bracket) (trim s)
