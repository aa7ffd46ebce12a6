-- ===== src/Command/Tests.antt =====
-- Runs of the command parser.
use vigil_rs.Prelude.{◌≡◌, refl, codes, ok, err, List, [], ◌∷◌}
use vigil_rs.Command.Spelling.{Piece, bare, escaped, single_quoted, line_text}
use vigil_rs.Command.Laws.{shell_words-line_text}
use vigil_rs.Command.{parse_command}
use vigil_rs.Command.Words.{shell_words, unmatched_bracket, unterminated_quote}

plain_words : shell_words (codes "a  bc") ≡ ok (codes "a" ∷ codes "bc" ∷ [])
unfolding shell_words
plain_words = refl

quoted :
    shell_words (codes "sh -c 'if [ x ]'") ≡ ok (codes "sh" ∷ codes "-c" ∷ codes "if [ x ]" ∷ [])
unfolding shell_words
quoted = refl

-- An explicit empty argument is lost.
empty_argument_lost : shell_words (codes "run '' x") ≡ ok (codes "run" ∷ codes "x" ∷ [])
unfolding shell_words
empty_argument_lost = refl

bracket :
    parse_command (codes " foo a [ --port 80 ] ")
    ≡ ok (codes "foo" ∷ codes "a" ∷ codes "--port" ∷ codes "80" ∷ [])
unfolding parse_command
bracket = refl

empty_bracket : parse_command (codes "foo [ ]") ≡ ok (codes "foo" ∷ [])
unfolding parse_command
empty_bracket = refl

no_close : parse_command (codes "foo [ a") ≡ err unmatched_bracket
unfolding parse_command
no_close = refl

in_quotes :
    parse_command (codes "sh -c 'if [ x ]; fi'")
    ≡ ok (codes "sh" ∷ codes "-c" ∷ codes "if [ x ]; fi" ∷ [])
unfolding parse_command
in_quotes = refl

open_quote : parse_command (codes "sh 'x") ≡ err unterminated_quote
unfolding parse_command
open_quote = refl

-- the words `a\ b` and `'c d'`
abbrev two_words : List (List Piece)
two_words = (bare b'a' ∷ escaped b' ' ∷ bare b'b' ∷ []) ∷ (single_quoted (codes "c d") ∷ []) ∷ []

shell_words-line_text_example :
    shell_words (line_text two_words) ≡ ok (codes "a b" ∷ codes "c d" ∷ [])
shell_words-line_text_example =
    shell_words-line_text two_words
      (((refl, (tt, (refl, tt))), λ e. cc), (((refl, tt), λ e. cc), tt))
