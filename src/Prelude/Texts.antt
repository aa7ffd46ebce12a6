-- ===== src/Prelude/Texts.antt =====
-- The order of texts by their characters, which is that of their bytes in UTF-8.
use mathlib.Core.Path.{◌≡◌, refl}
use mathlib.Core.Bool.{Bool, true, false, ◌&&◌, ◌||◌}
use mathlib.Core.List.{[], ◌∷◌}
use native.Mathlib.Omega.{arith}
use vigil_rs.Prelude.Tests.{ltb, ◌==◌}
use vigil_rs.Prelude.Chars.{Text}

-- `<` of `str`
unfoldable pub before : Text → Text → Bool
before [] [] = false
before [] (d ∷ ds) = true
before (c ∷ cs) [] = false
before (c ∷ cs) (d ∷ ds) = ltb c d || (c == d && before cs ds)

pub before_step : (l e t : Text) → before l e ≡ false → before l t ≡ true → before e t ≡ true
unfolding before
before_step [] [] t p q = q
before_step [] (y ∷ e) t p q = cc
before_step (x ∷ l) e [] p q = cc
before_step (x ∷ l) [] (z ∷ t) p q = refl
before_step (x ∷ l) (y ∷ e) (z ∷ t) p q = ground (arith, before_step l e t)

pub before_asym : (a b : Text) → before a b ≡ true → before b a ≡ false
unfolding before
before_asym [] [] p = cc
before_asym [] (y ∷ b) p = refl
before_asym (x ∷ a) [] p = cc
before_asym (x ∷ a) (y ∷ b) p = ground (arith, before_asym a b)

pub before_self : (s : Text) → before s s ≡ false
unfolding before
before_self [] = refl
before_self (c ∷ s) = ground (arith, before_self s)

-- Neither before the other: the same.
pub before_same : (a b : Text) → before a b ≡ false → before b a ≡ false → a ≡ b
unfolding before
before_same [] [] p q = refl
before_same [] (y ∷ b) p q = cc
before_same (x ∷ a) [] p q = cc
before_same (x ∷ a) (y ∷ b) p q = grind (arith, before_same a b)
