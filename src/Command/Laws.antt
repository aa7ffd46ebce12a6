-- ===== src/Command/Laws.antt =====
-- `shell_words` gives back the words of a line, however they are written.
use mathlib.Core.List.{append-nil, append_assoc}
use vigil_rs.Prelude.{
  ℕ, not, ◌&&◌, ◌==◌, true, false, ◌≡◌, ◌≢◌, refl, ap, and_parts, ◌∙◌, sym, List, [], ◌∷◌, ◌++◌,
  Text, all, All, ok, arith,
}
use vigil_rs.Command.Words.{Splitter, Quotes, no_quotes, split, split_char, finish, shell_words}
use vigil_rs.Command.Spelling.{
  Piece, is_bare, bare, escaped, single_quoted, double_quoted, piece_text, piece_value, IsSpelled,
  word_text, word_value, line_text, line_values, IsWord,
}

abbrev in_single : Quotes
in_single = record { in_single = true; in_double = false; escaped = false }

abbrev in_double : Quotes
in_double = record { in_single = false; in_double = true; escaped = false }

abbrev at : List Text → Text → Quotes → Splitter
at ws t q = record { words = ws; current = t; quotes = q }

module _ (ws : List Text) (current : Text) (c : ℕ) where
  split_char-in_single :
      not (c == b'\'') ≡ true
      → split_char (at ws current in_single) c ≡ at ws (current ++ c ∷ []) in_single
  unfolding split_char
  split_char-in_single h = ground arith

  split_char-in_double :
      (not (c == b'"') && not (c == b'\\')) ≡ true
      → split_char (at ws current in_double) c ≡ at ws (current ++ c ∷ []) in_double
  unfolding split_char
  split_char-in_double h = ground arith

  split_char-bare :
      is_bare c ≡ true
      → split_char (at ws current no_quotes) c ≡ at ws (current ++ c ∷ []) no_quotes
  unfolding split_char
  split_char-bare h = ground arith

module _ (ws : List Text) (rest : Text) where
  split-single_quoted :
      (current t : Text)
      → all (λ c. not (c == b'\'')) t ≡ true
      → split (at ws current in_single) (t ++ b'\'' ∷ rest)
        ≡ split (at ws (current ++ t) no_quotes) rest
  unfolding split
  split-single_quoted current [] h =
      unfold split_char in
      ap (λ (t : Text). split (at ws t no_quotes) rest) (sym (append-nil current))
  split-single_quoted current (c ∷ t) h =
      let (here, later) = and_parts _ _ h in
      rw (split, split_char-in_single ws current c here)
        (split-single_quoted (current ++ c ∷ []) t later
          ∙ ap (λ (t : Text). split (at ws t no_quotes) rest) (append_assoc current (c ∷ []) t))

  split-double_quoted :
      (current t : Text)
      → all (λ c. not (c == b'"') && not (c == b'\\')) t ≡ true
      → split (at ws current in_double) (t ++ b'"' ∷ rest)
        ≡ split (at ws (current ++ t) no_quotes) rest
  unfolding split
  split-double_quoted current [] h =
      unfold split_char in
      ap (λ (t : Text). split (at ws t no_quotes) rest) (sym (append-nil current))
  split-double_quoted current (c ∷ t) h =
      let (here, later) = and_parts _ _ h in
      rw (split, split_char-in_double ws current c here)
        (split-double_quoted (current ++ c ∷ []) t later
          ∙ ap (λ (t : Text). split (at ws t no_quotes) rest) (append_assoc current (c ∷ []) t))

  -- A piece adds its value to the current word.
  split-piece :
      (current : Text) (p : Piece)
      → IsSpelled p
      → split (at ws current no_quotes) (piece_text p ++ rest)
        ≡ split (at ws (current ++ piece_value p) no_quotes) rest
  unfolding split
  split-piece current (bare c) h = rw (split_char-bare ws current c h)
  split-piece current (escaped c) h = unfold split_char in refl
  split-piece current (single_quoted t) h =
      unfold split_char in rw (append_assoc t (b'\'' ∷ []) rest) (split-single_quoted current t h)
  split-piece current (double_quoted t) h =
      unfold split_char in rw (append_assoc t (b'"' ∷ []) rest) (split-double_quoted current t h)

-- So do the pieces of a word.
split-word :
    (ws : List Text) (rest current : Text) (w : List Piece)
    → All IsSpelled w
    → split (at ws current no_quotes) (word_text w ++ rest)
      ≡ split (at ws (current ++ word_value w) no_quotes) rest
split-word ws rest current [] h =
    ap (λ (t : Text). split (at ws t no_quotes) rest) (sym (append-nil current))
split-word ws rest current (p ∷ w) h = rw (append_assoc (piece_text p) (word_text w) rest) (
    split-piece ws (word_text w ++ rest) current p h.0
    ∙ split-word ws rest (current ++ piece_value p) w h.1
    ∙ ap (λ (t : Text). split (at ws t no_quotes) rest)
        (append_assoc current (piece_value p) (word_value w)))

-- The words of the splitter, with the one that it is reading.
abbrev read_so_far : List Text → Text → List Text
read_so_far ws [] = ws
read_so_far ws (c ∷ t) = ws ++ (c ∷ t) ∷ []

split_char-space :
    (ws : List Text) (current : Text)
    → split_char (at ws current no_quotes) b' ' ≡ at (read_so_far ws current) [] no_quotes
unfolding split_char
split_char-space ws [] = refl
split_char-space ws (c ∷ t) = refl

finish-at :
    (ws : List Text) (current : Text)
    → finish (at ws current no_quotes) ≡ ok (read_so_far ws current)
unfolding finish
finish-at ws [] = refl
finish-at ws (c ∷ t) = refl

read_so_far-append :
    (ws : List Text) (t : Text) (later : List Text)
    → t ≢ []
    → read_so_far ws t ++ later ≡ ws ++ t ∷ later
read_so_far-append ws [] later h = absurd (h refl)
read_so_far-append ws (c ∷ t) later h = append_assoc ws ((c ∷ t) ∷ []) later

finish-split-line :
    (ws : List Text) (current : Text) (line : List (List Piece))
    → All IsWord line
    → finish (split (at ws current no_quotes) (line_text line))
      ≡ ok (read_so_far ws current ++ line_values line)
unfolding split
finish-split-line ws current [] h =
    rw (finish-at ws current) (ap ok (sym (append-nil (read_so_far ws current))))
finish-split-line ws current (w ∷ line) h =
    rw
      (
        split,
        split_char-space ws current,
        split-word (read_so_far ws current) (line_text line) [] w h.0.0,
      )
      (finish-split-line (read_so_far ws current) (word_value w) line h.1
        ∙ ap ok
            (read_so_far-append (read_so_far ws current) (word_value w) (line_values line) h.0.1))

-- A line of words, each written in bare, escaped and quoted pieces and not empty, splits into
-- the values of these words.
pub shell_words-line_text :
    (line : List (List Piece))
    → All IsWord line
    → shell_words (line_text line) ≡ ok (line_values line)
unfolding shell_words
shell_words-line_text line h = finish-split-line [] [] line h
