-- ===== src/Command/Spelling.antt =====
-- How an argument may be written in a command string, independently of the splitter: as pieces
-- that are bare, escaped or quoted.
use vigil_rs.Prelude.{ℕ, Bool, true, not, ◌&&◌, ◌≡◌, ◌≢◌, List, [], ◌∷◌, ◌++◌, Text, ◌==◌, all, All}
use vigil_rs.Command.Words.{is_separator}

pub data Piece : Type 0 where
  bare : ℕ → Piece
  escaped : ℕ → Piece
  single_quoted : Text → Piece
  double_quoted : Text → Piece

abbrev pub piece_text : Piece → Text
piece_text (bare c) = c ∷ []
piece_text (escaped c) = b'\\' ∷ c ∷ []
piece_text (single_quoted t) = b'\'' ∷ (t ++ b'\'' ∷ [])
piece_text (double_quoted t) = b'"' ∷ (t ++ b'"' ∷ [])

abbrev pub piece_value : Piece → Text
piece_value (bare c) = c ∷ []
piece_value (escaped c) = c ∷ []
piece_value (single_quoted t) = t
piece_value (double_quoted t) = t

abbrev pub is_bare : ℕ → Bool
is_bare c = not (c == b'\\') && not (c == b'\'') && not (c == b'"') && not (is_separator c)

-- A bare character is none with a meaning, a quoted text does not hold its own quote, and one in
-- double quotes no backslash either.
abbrev pub IsSpelled : Piece → Type 0
IsSpelled (bare c) = is_bare c ≡ true
IsSpelled (escaped c) = Unit {0}
IsSpelled (single_quoted t) = all (λ c. not (c == b'\'')) t ≡ true
IsSpelled (double_quoted t) = all (λ c. not (c == b'"') && not (c == b'\\')) t ≡ true

abbrev pub word_text : List Piece → Text
word_text [] = []
word_text (p ∷ ps) = piece_text p ++ word_text ps

abbrev pub word_value : List Piece → Text
word_value [] = []
word_value (p ∷ ps) = piece_value p ++ word_value ps

-- The words, with a space before each.
abbrev pub line_text : List (List Piece) → Text
line_text [] = []
line_text (w ∷ ws) = b' ' ∷ (word_text w ++ line_text ws)

abbrev pub line_values : List (List Piece) → List Text
line_values [] = []
line_values (w ∷ ws) = word_value w ∷ line_values ws

abbrev pub IsWord : List Piece → Type 0
IsWord w = All IsSpelled w × (word_value w ≢ [])
