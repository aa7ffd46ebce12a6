-- ===== src/Relay/Filter.antt =====
-- `LineFilter` of crates/vigil-log-relay/src/filter.rs. A compiled expression is its test on lines; the
-- compiler of expressions is a parameter.
use vigil_rs.Prelude.{
  Bool, true, false, not, ◌&&◌, List, [], ◌∷◌, Text, any, is_empty, Result, ok, ◌>>=◌,
  if◌then◌else◌,
}

abbrev pub Regex : Type 0
Regex = Text → Bool

pub record LineFilter : Type 0 where
  pub include : List Regex
  pub exclude : List Regex

-- the first expression that is not valid is the error
unfoldable pub compile_all : (Text → Result Text Regex) → List Text → Result Text (List Regex)
compile_all compile [] = ok []
compile_all compile (p ∷ rest) = do re ← compile p; more ← compile_all compile rest; ok (re ∷ more)

unfoldable pub new_filter :
    (Text → Result Text Regex) → List Text → List Text → Result Text LineFilter
unfolding compile_all
new_filter compile include exclude = do
  included ← compile_all compile include
  excluded ← compile_all compile exclude
  ok (record { include = included; exclude = excluded })

unfoldable pub allow : LineFilter → Text → Bool
allow f line =
    if not (is_empty f.include) && not (any (λ re. re line) f.include)
    then false
    else if any (λ re. re line) f.exclude
    then false
    else true
