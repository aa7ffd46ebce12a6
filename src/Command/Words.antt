-- ===== src/Command/Words.antt =====
-- crates/vigild/src/process_util/parse.rs: `shell_words`, and the quoting state that it shares
-- with `find_unquoted`.
use vigil_rs.Prelude.{
  ℕ, Bool, true, false, not, ◌&&◌, ◌||◌, List, [], ◌∷◌, ◌++◌, Text, ◌==◌, is_empty, Result, ok, err,
  if◌then◌else◌,
}

pub data CommandError : Type 0 where
  unmatched_bracket malformed_default_args unterminated_quote : CommandError

-- `in_single`, `in_double` and `escaped` of either loop
pub record Quotes : Type 0 where
  pub in_single : Bool
  pub in_double : Bool
  pub escaped : Bool

abbrev pub no_quotes : Quotes
no_quotes = record { in_single = false; in_double = false; escaped = false }

abbrev pub unquoted : Quotes → Bool
unquoted q = not q.in_single && not q.in_double

abbrev pub is_backslash : Quotes → ℕ → Bool
is_backslash q c = c == b'\\' && not q.in_single

abbrev pub is_single_quote : Quotes → ℕ → Bool
is_single_quote q c = c == b'\'' && not q.in_double

abbrev pub is_double_quote : Quotes → ℕ → Bool
is_double_quote q c = c == b'"' && not q.in_single

-- The character is none of the three that change the state, and not escaped.
abbrev pub plain : Quotes → ℕ → Bool
plain q c =
    not q.escaped
    && not (is_backslash q c)
    && not (is_single_quote q c)
    && not (is_double_quote q c)

-- the state after a character, in the order of the arms of the `match`
unfoldable pub quotes_next : Quotes → ℕ → Quotes
quotes_next q c =
    if q.escaped
    then record q { escaped = false }
    else if is_backslash q c
    then record q { escaped = true }
    else if is_single_quote q c
    then record q { in_single = not q.in_single }
    else if is_double_quote q c
    then record q { in_double = not q.in_double }
    else q

-- the separators between words
abbrev pub is_separator : ℕ → Bool
is_separator c = c == b' ' || c == b'\t' || c == b'\n' || c == b'\r'

-- the variables of the loop
pub record Splitter : Type 0 where
  pub words : List Text
  pub current : Text
  pub quotes : Quotes

abbrev pub start : Splitter
start = record { words = []; current = []; quotes = no_quotes }

-- `if !current.is_empty() { words.push(take(&mut current)) }`
flush : Splitter → Splitter
flush s =
    if is_empty s.current then s else record s { words = s.words ++ s.current ∷ []; current = [] }

unfoldable pub split_char : Splitter → ℕ → Splitter
unfolding quotes_next flush
split_char s c =
    let next = record s { quotes = quotes_next s.quotes c } in
    if s.quotes.escaped
    then record next { current = s.current ++ c ∷ [] }
    else if plain s.quotes c
    then (if is_separator c && unquoted s.quotes
        then flush next
        else record next { current = s.current ++ c ∷ [] })
    else next

-- the `for` loop
unfoldable pub split : Splitter → Text → Splitter
split s [] = s
split s (c ∷ rest) = split (split_char s c) rest

unfoldable pub finish : Splitter → Result CommandError (List Text)
unfolding flush
finish s =
    if s.quotes.in_single || s.quotes.in_double then err unterminated_quote else ok (flush s).words

unfoldable pub shell_words : Text → Result CommandError (List Text)
unfolding split split_char finish
shell_words s = finish (split start s)
