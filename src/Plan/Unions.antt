-- ===== src/Plan/Unions.antt =====
-- Laying one overlay over a configuration twice is laying it once.
use vigil_rs.Prelude.{
  String, true, ◌||◌, ◌≡◌, refl, Option, none, some, List, [], ◌∷◌, ◌++◌, Map, lookup, insert,
  extend, contains, contains-append, contains-keys, lookup-insert, lookup-extend, has_distinct_keys,
  All, arith, eq_iff, eq_refl, or_else,
}
use vigil_rs.Plan.Config.{ServiceConfig}
use vigil_rs.Plan.Merge.{union, merge_service}

-- The union holds what either list holds.
pub contains-union :
    (base overlay : List String) (a : String)
    → contains (union base overlay) a ≡ (contains base a || contains overlay a)
unfolding union contains
contains-union base [] a = ground arith
contains-union base (v ∷ overlay) a = ground (
  arith,
  eq_iff v a,
  contains-append base (v ∷ []) a,
  contains-union base overlay a,
  contains-union (base ++ v ∷ []) overlay a,
)

abbrev AreIn : List String → List String → Type 0
AreIn base xs = All (λ v. contains base v ≡ true) xs

union-AreIn : (base xs : List String) → AreIn base xs → union base xs ≡ base
unfolding union
union-AreIn base [] h = refl
union-AreIn base (v ∷ xs) h = rw h.0 (union-AreIn base xs h.1)

AreIn-union : (xs base overlay : List String) → AreIn overlay xs → AreIn (union base overlay) xs
AreIn-union [] base overlay h = tt
AreIn-union (x ∷ xs) base overlay h =
    (ground (arith, contains-union base overlay x), AreIn-union xs base overlay h.1)

AreIn-cons : (x : String) (xs ys : List String) → AreIn ys xs → AreIn (x ∷ ys) xs
unfolding contains
AreIn-cons x [] ys h = tt
AreIn-cons x (y ∷ xs) ys h = (ground arith, AreIn-cons x xs ys h.1)

AreIn-self : (xs : List String) → AreIn xs xs
unfolding contains
AreIn-self [] = tt
AreIn-self (x ∷ xs) = (rw (eq_refl x), AreIn-cons x xs xs (AreIn-self xs))

union_twice : (base overlay : List String) → union (union base overlay) overlay ≡ union base overlay
union_twice base overlay =
    union-AreIn (union base overlay) overlay (AreIn-union overlay base overlay (AreIn-self overlay))

module _ {ℓ} {V : Type ℓ} where
  insert-present : (k : String) (v : V) (m : Map V) → lookup k m ≡ some v → insert k v m ≡ m
  unfolding lookup insert
  insert-present k v [] h = cc
  insert-present k v ((j, w) ∷ m) h = ground (arith, insert-present k v m)

  -- Every entry of `more` is in `m`.
  abbrev IsSubmap : Map V → Map V → Type ℓ
  IsSubmap m more = All (λ e. lookup e.0 m ≡ some e.1) more

  extend-IsSubmap : (m more : Map V) → IsSubmap m more → extend m more ≡ m
  unfolding extend
  extend-IsSubmap m [] h = refl
  extend-IsSubmap m ((k, v) ∷ more) h = rw (insert-present k v m h.0) (extend-IsSubmap m more h.1)

  IsSubmap-extend : (m more : Map V) → has_distinct_keys more ≡ true → IsSubmap (extend m more) more
  unfolding extend has_distinct_keys
  IsSubmap-extend m [] h = tt
  IsSubmap-extend m ((k, v) ∷ more) h = (
    ground (
      arith,
      eq_iff k k,
      contains-keys k more,
      lookup-insert k k v m,
      lookup-extend k (insert k v m) more,
    ),
    IsSubmap-extend (insert k v m) more (ground arith),
  )

  extend_twice :
      (m more : Map V) → has_distinct_keys more ≡ true → extend (extend m more) more ≡ extend m more
  extend_twice m more h = extend-IsSubmap (extend m more) more (IsSubmap-extend m more h)

or_else_twice {ℓ} : {A : Type ℓ} (o b : Option A) → or_else o (or_else o b) ≡ or_else o b
or_else_twice none b = refl
or_else_twice (some a) b = refl

-- The keys of a service's maps are distinct.
pub record IsServiceConfig {F : Type 0} (c : ServiceConfig F) : Type 0 where
  pub environment : has_distinct_keys c.environment ≡ true
  pub on_check_failure : has_distinct_keys c.on_check_failure ≡ true

-- A layer that is given twice counts once: laying a service overlay over the result of laying it
-- changes nothing. The keys of the overlay's maps are distinct.
pub merge_service_twice :
    {F : Type 0} (base overlay : ServiceConfig F)
    → IsServiceConfig overlay
    → merge_service (merge_service base overlay) overlay ≡ merge_service base overlay
unfolding merge_service
merge_service_twice base overlay h = simp (
  or_else_twice,
  union_twice,
  extend_twice base.environment overlay.environment h.environment,
  extend_twice base.on_check_failure overlay.on_check_failure h.on_check_failure,
)
