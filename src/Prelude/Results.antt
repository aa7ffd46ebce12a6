-- ===== src/Prelude/Results.antt =====
-- `Result` of the source, with its error type as a parameter, and the `?` operator as a bind.
use mathlib.Core.Path.{◌≡◌, refl}
use mathlib.Core.Option.{Option, none, some}

pub data Result {ℓ κ} (E : Type κ) (A : Type ℓ) : Type (ℓ ⊔ κ) where
  ok : A → Result E A
  err : E → Result E A

infixl 5 ◌>>=◌
abbrev pub ◌>>=◌ {ℓ κ ι} :
    {E : Type κ} {A : Type ℓ} {B : Type ι} → Result E A → (A → Result E B) → Result E B
ok a >>= f = f a
err e >>= f = err e

module _ {ℓ κ} {E : Type κ} {A : Type ℓ} where
  -- `Result::ok`
  abbrev pub to_option : Result E A → Option A
  to_option (ok a) = some a
  to_option (err _) = none

  -- `ok_or`
  abbrev pub ok_or : Option A → E → Result E A
  ok_or none e = err e
  ok_or (some a) e = ok a

  -- Inversion of a bind that succeeds.
  pub >>=-eq-ok {ι} :
      {C : Type ι} (first : Result E A) (next : A → Result E C) {last : C}
      → (first >>= next) ≡ ok last
      → (found : A) × (first ≡ ok found) × (next found ≡ ok last)
  >>=-eq-ok (ok found) next same = (found, refl, same)
  >>=-eq-ok (err e) next same = cc
