-- ===== src/Prelude/Maps.antt =====
-- A map from names as a list of entries in the order of insertion: an insertion under a new key
-- goes to the end, one under a key that is there keeps its place, a removal closes the gap.
use mathlib.Core.Path.{◌≡◌, refl}
use Prim.Native.String.{String}
use mathlib.Core.Bool.{Bool, true, not, ◌&&◌, ◌||◌}
use mathlib.Core.List.{List, [], ◌∷◌}
use mathlib.Core.Option.{Option, none, some}
use text.Mathlib.Text.{◌==◌ as str_eq}
use text.Mathlib.TextEquality.{eq_iff}
use native.Mathlib.Omega.{arith}
use vigil_rs.Prelude.Tests.{if◌then◌else◌, is_some, or_else}
use vigil_rs.Prelude.Lists.{contains}

abbrev pub Map {ℓ} : Type ℓ → Type ℓ
Map V = List (String × V)

module _ {ℓ} {V : Type ℓ} where
  unfoldable pub lookup : String → Map V → Option V
  lookup k [] = none
  lookup k ((j, v) ∷ m) = if str_eq j k then some v else lookup k m

  unfoldable pub insert : String → V → Map V → Map V
  insert name value [] = (name, value) ∷ []
  insert name value ((there, old) ∷ rest) =
      if str_eq there name then (there, value) ∷ rest else (there, old) ∷ insert name value rest

  unfoldable pub remove : String → Map V → Map V
  remove k [] = []
  remove k ((j, v) ∷ m) = let rest = remove k m in if str_eq j k then rest else (j, v) ∷ rest

  unfoldable pub keys : Map V → List String
  keys [] = []
  keys ((k, v) ∷ m) = k ∷ keys m

  unfoldable pub values : Map V → List V
  values [] = []
  values ((k, v) ∷ m) = v ∷ values m

  -- `extend`: the entries of the second map are inserted one by one
  unfoldable pub extend : Map V → Map V → Map V
  extend m [] = m
  extend m ((k, v) ∷ more) = extend (insert k v m) more

  pub lookup-insert :
      (name other : String) (value : V) (m : Map V)
      → lookup other (insert name value m)
        ≡ (if str_eq name other then some value else lookup other m)
  unfolding lookup insert
  lookup-insert name other value [] = refl
  lookup-insert name other value ((there, old) ∷ rest) = ground (
    arith,
    lookup-insert name other value rest,
    eq_iff name other,
    eq_iff there name,
    eq_iff there other,
  )

  pub lookup-remove :
      (k j : String) (m : Map V) → lookup j (remove k m) ≡ (if str_eq k j then none else lookup j m)
  unfolding lookup remove
  lookup-remove k j [] = ground arith
  lookup-remove k j ((i, w) ∷ m) =
      ground (arith, eq_iff k j, eq_iff i k, eq_iff i j, lookup-remove k j m)

  -- A name is a key exactly if a value is found under it.
  pub contains-keys : (k : String) (m : Map V) → contains (keys m) k ≡ is_some (lookup k m)
  unfolding contains keys lookup
  contains-keys k [] = refl
  contains-keys k ((j, v) ∷ m) = ground (arith, contains-keys k m)

  -- The keys of a map are distinct.
  unfoldable pub has_distinct_keys : Map V → Bool
  has_distinct_keys [] = true
  has_distinct_keys ((k, v) ∷ m) = not (contains (keys m) k) && has_distinct_keys m

  pub contains-keys-insert :
      (k j : String) (v : V) (m : Map V)
      → contains (keys (insert k v m)) j ≡ (str_eq k j || contains (keys m) j)
  unfolding contains keys insert
  contains-keys-insert k j v [] = refl
  contains-keys-insert k j v ((i, w) ∷ m) =
      ground (arith, eq_iff k j, eq_iff i k, eq_iff i j, contains-keys-insert k j v m)

  pub has_distinct_keys-insert :
      (k : String) (v : V) (m : Map V)
      → has_distinct_keys m ≡ true
      → has_distinct_keys (insert k v m) ≡ true
  unfolding has_distinct_keys insert keys contains
  has_distinct_keys-insert k v [] h = refl
  has_distinct_keys-insert k v ((i, w) ∷ m) h =
      ground (
        arith,
        eq_iff i k,
        eq_iff k i,
        contains-keys-insert k i v m,
        has_distinct_keys-insert k v m,
      )

  -- What the second map holds wins.
  pub lookup-extend :
      (j : String) (m more : Map V)
      → has_distinct_keys more ≡ true
      → lookup j (extend m more) ≡ or_else (lookup j more) (lookup j m)
  unfolding has_distinct_keys extend lookup
  lookup-extend j m [] h = refl
  lookup-extend j m ((k, v) ∷ more) h = ground (
    arith,
    eq_iff k j,
    lookup-insert k j v m,
    contains-keys k more,
    lookup-extend j (insert k v m) more,
  )
