-- ===== src/NoProxy/Strings.antt =====
-- The methods of `str` that crates/vigil-types/src/no_proxy/mod.rs calls.
use vigil_rs.Prelude.{
  ◌≡◌, refl, ℕ, zero, suc, ◌+◌, ◌-◌, ◌*◌, ◌^◌, Bool, true, false, ◌&&◌, Option, none, some, List,
  [], ◌∷◌, Text, length, drop, is_empty, is_digit, all, leb, ltb, ◌==◌, if◌then◌else◌, map,
}

-- the `?` operator on an `Option`
infixl 5 ◌>>=◌
abbrev pub ◌>>=◌ {ℓ κ} : {A : Type ℓ} {B : Type κ} → Option A → (A → Option B) → Option B
none >>= next = none
some a >>= next = next a

-- Inversion of a bind that gives a value.
pub >>=-eq-some {ℓ κ} :
    {A : Type ℓ} {B : Type κ} (first : Option A) (next : A → Option B) {last : B}
    → (first >>= next) ≡ some last
    → (found : A) × (first ≡ some found) × (next found ≡ some last)
>>=-eq-some none next same = cc
>>=-eq-some (some found) next same = (found, refl, same)

lower : ℕ → ℕ
lower c = if leb b'A' c && leb c b'Z' then c + 32 else c

-- `to_ascii_lowercase`
unfoldable pub lowercase : Text → Text
unfolding lower
lowercase s = map lower s

onto_first : ℕ → List Text → List Text
onto_first c [] = (c ∷ []) ∷ []
onto_first c (part ∷ parts) = (c ∷ part) ∷ parts

unfoldable pub split : ℕ → Text → List Text
unfolding onto_first
split k [] = [] ∷ []
split k (c ∷ rest) = let parts = split k rest in if c == k then [] ∷ parts else onto_first c parts

before : ℕ → Option (Text × Text) → Option (Text × Text)
before c none = none
before c (some (front, back)) = some (c ∷ front, back)

unfoldable pub split_once : ℕ → Text → Option (Text × Text)
unfolding before
split_once k [] = none
split_once k (c ∷ rest) =
    let later = split_once k rest in if c == k then some ([], rest) else before c later

last_or : Bool → Text → ℕ → Option (Text × Text) → Option (Text × Text)
last_or here rest c (some (front, back)) = some (c ∷ front, back)
last_or true rest c none = some ([], rest)
last_or false rest c none = none

unfoldable pub rsplit_once : ℕ → Text → Option (Text × Text)
unfolding last_or
rsplit_once k [] = none
rsplit_once k (c ∷ rest) = last_or (c == k) rest c (rsplit_once k rest)

unfoldable pub count : ℕ → Text → ℕ
count k [] = 0
count k (c ∷ rest) = (if c == k then 1 else 0) + count k rest

unfoldable pub all_digits : Text → Bool
all_digits s = all is_digit s

-- `strip_prefix` of a character, or the text itself
unfoldable pub strip_char : ℕ → Text → Text
strip_char k [] = []
strip_char k (c ∷ rest) = if c == k then rest else c ∷ rest

value_from : ℕ → Text → ℕ
value_from n [] = n
value_from n (c ∷ rest) = value_from (n * 10 + (c - b'0')) rest

digits_u32 : Text → Option ℕ
unfolding value_from all_digits
digits_u32 s =
    if is_empty s
    then none
    else if all_digits s && ltb (value_from 0 s) (2 ^ 32)
    then some (value_from 0 s)
    else none

-- `str::parse::<u32>`: digits after one plus sign at most
unfoldable pub parse_u32 : Text → Option ℕ
unfolding digits_u32 strip_char
parse_u32 s = digits_u32 (strip_char b'+' s)

unfoldable pub text_eq : Text → Text → Bool
text_eq [] [] = true
text_eq [] (d ∷ ds) = false
text_eq (c ∷ cs) [] = false
text_eq (c ∷ cs) (d ∷ ds) = c == d && text_eq cs ds

unfoldable pub ends_with : Text → Text → Bool
unfolding text_eq
ends_with s e = leb (length e) (length s) && text_eq (drop (length s - length e) s) e

-- the character at a position is `k`
unfoldable pub char_is : ℕ → ℕ → Text → Bool
char_is k i [] = false
char_is k zero (c ∷ rest) = c == k
char_is k (suc i) (c ∷ rest) = char_is k i rest
