-- ===== src/Prelude/Chars.antt =====
-- Text as the list of its code points.
use Prim.Native.Nat.{ℕ}
use Prim.Native.Char.{code}
use Prim.Native.String.{String}
use mathlib.Core.Bool.{Bool, true, false, ◌&&◌}
use mathlib.Core.List.{List, [], ◌∷◌}
use vigil_rs.Prelude.Tests.{leb, ◌==◌}

abbrev pub Text : Type 0
Text = List ℕ

abbrev pub codes : String → Text
codes String.[] = []
codes (String.◌∷◌ c s) = code c ∷ codes s

-- `char::is_ascii_digit`
abbrev pub is_digit : ℕ → Bool
is_digit c = leb b'0' c && leb c b'9'

-- `str::starts_with` of one character
abbrev pub starts_with_char : ℕ → Text → Bool
starts_with_char k [] = false
starts_with_char k (c ∷ rest) = c == k

-- `str::starts_with`
unfoldable pub starts_with : Text → Text → Bool
starts_with s [] = true
starts_with [] (n ∷ needle) = false
starts_with (c ∷ s) (n ∷ needle) = c == n && starts_with s needle
