-- ===== src/Duration/Grammar.antt =====
-- What a duration text means, independently of the parser: a list of components, each a run of
-- digits and a unit.
use vigil_rs.Prelude.{
  ℕ, ◌+◌, ◌*◌, ◌-◌, ◌^◌, true, ◌≡◌, List, [], ◌∷◌, ◌++◌, Text, is_digit, all, length, All,
}

pub data TimeUnit : Type 0 where
  millis seconds minutes hours : TimeUnit

abbrev pub unit_text : TimeUnit → Text
unit_text millis = b'm' ∷ b's' ∷ []
unit_text seconds = b's' ∷ []
unit_text minutes = b'm' ∷ []
unit_text hours = b'h' ∷ []

abbrev pub unit_millis : TimeUnit → ℕ
unit_millis millis = 1
unit_millis seconds = 1_000
unit_millis minutes = 60_000
unit_millis hours = 3_600_000

-- A component has one digit at least.
pub record Component : Type 0 where
  pub first : ℕ
  pub others : Text
  pub unit : TimeUnit

abbrev pub number_text : Component → Text
number_text c = c.first ∷ c.others

abbrev pub IsNumber : Component → Type 0
IsNumber c = all is_digit (number_text c) ≡ true

-- the place value of a base-ten numeral
abbrev pub place_value : Text → ℕ
place_value [] = 0
place_value (c ∷ rest) = (c - b'0') * 10 ^ length rest + place_value rest

abbrev pub component_millis : Component → ℕ
component_millis c = place_value (number_text c) * unit_millis c.unit

abbrev pub text : List Component → Text
text [] = []
text (c ∷ cs) = number_text c ++ (unit_text c.unit ++ text cs)

abbrev pub millis_of : List Component → ℕ
millis_of [] = 0
millis_of (c ∷ cs) = component_millis c + millis_of cs

abbrev pub AreNumbers : List Component → Type 0
AreNumbers cs = All IsNumber cs
