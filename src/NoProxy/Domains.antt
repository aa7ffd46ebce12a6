-- ===== src/NoProxy/Domains.antt =====
-- The test of `no_proxy_matches` on names: a domain and all names under it.
use vigil_rs.Prelude.{
  ℕ, zero, suc, ◌-◌, ◌≡◌, ◌↔◌, ◌⊎◌, inl, inr, refl, ap, Bool, true, ◌&&◌, ◌||◌, [], ◌∷◌, ◌++◌, Text,
  length, length-append, drop, ltb, arith,
}
use vigil_rs.NoProxy.Strings.{text_eq, ends_with, char_is}
use vigil_rs.NoProxy.{matches_name}

text_eq→≡ : (s t : Text) → text_eq s t ≡ true → s ≡ t
unfolding text_eq
text_eq→≡ [] [] h = refl
text_eq→≡ [] (d ∷ ds) h = cc
text_eq→≡ (c ∷ cs) [] h = cc
text_eq→≡ (c ∷ cs) (d ∷ ds) h = grind (arith, text_eq→≡ cs ds)

text_eq_refl : (s : Text) → text_eq s s ≡ true
unfolding text_eq
text_eq_refl [] = refl
text_eq_refl (c ∷ s) = ground (arith, text_eq_refl s)

-- the domain itself, or a name under it
abbrev pub IsUnder : Text → Text → Type 0
IsUnder bare e = (bare ≡ e) ⊎ ((front : Text) × (bare ≡ front ++ b'.' ∷ e))

split_at :
    (bare : Text) (i : ℕ) (e : Text)
    → char_is b'.' i bare ≡ true
    → drop (suc i) bare ≡ e
    → (front : Text) × (bare ≡ front ++ b'.' ∷ e)
unfolding char_is
split_at [] i e h d = cc
split_at (c ∷ rest) zero e h d = ([], grind arith)
split_at (c ∷ rest) (suc i) e h d =
    let (front, same) = split_at rest i e h d in (c ∷ front, ap (λ t. c ∷ t) same)

-- where the source looks for the dot, it stands right before the end
dot_then_end :
    (bare e : Text)
    → ltb (length e) (length bare) ≡ true
    → char_is b'.' (length bare - length e - 1) bare ≡ true
    → ends_with bare e ≡ true
    → (front : Text) × (bare ≡ front ++ b'.' ∷ e)
unfolding ends_with
dot_then_end bare e longer dot ends =
    let at : suc (length bare - length e - 1) ≡ length bare - length e = ground arith in
    let tail : text_eq (drop (length bare - length e) bare) e ≡ true = ground arith in
    split_at bare (length bare - length e - 1) e dot
      (rw at (text_eq→≡ (drop (length bare - length e) bare) e tail))

name_parts :
    (a b c d : Bool)
    → (a || (b && c && d)) ≡ true
    → (a ≡ true) ⊎ ((b ≡ true) × (c ≡ true) × (d ≡ true))
name_parts a b c d h = ground arith

matches_name→IsUnder : (bare e : Text) → matches_name bare e ≡ true → IsUnder bare e
unfolding matches_name
matches_name→IsUnder bare e h =
    elim (name_parts (text_eq bare e) (ltb (length e) (length bare))
      (char_is b'.' (length bare - length e - 1) bare) (ends_with bare e) h) [
        | inl same ↦ inl (text_eq→≡ bare e same)
        | inr (longer, dot, ends) ↦ inr (dot_then_end bare e longer dot ends)
      ]

char_is-append : (front e : Text) → char_is b'.' (length front) (front ++ b'.' ∷ e) ≡ true
unfolding char_is
char_is-append [] e = refl
char_is-append (c ∷ front) e = char_is-append front e

drop-append : (front e : Text) → drop (suc (length front)) (front ++ b'.' ∷ e) ≡ e
drop-append [] e = refl
drop-append (c ∷ front) e = drop-append front e

matches_name-append : (front e : Text) → matches_name (front ++ b'.' ∷ e) e ≡ true
unfolding matches_name ends_with
matches_name-append front e =
    let n = length-append front (b'.' ∷ e) in
    let at : length (front ++ b'.' ∷ e) - length e ≡ suc (length front) = omega (arith, n) in
    let back : text_eq (drop (suc (length front)) (front ++ b'.' ∷ e)) e ≡ true =
      rw (drop-append front e) (text_eq_refl e) in
    let longer : ltb (length e) (length (front ++ b'.' ∷ e)) ≡ true = ground (arith, n) in
    rw (longer, at) (ground (arith, char_is-append front e, back, n))

matches_name-same : (e : Text) → matches_name e e ≡ true
unfolding matches_name
matches_name-same e = rw (text_eq_refl e) refl

pub matches_name_iff : (bare e : Text) → (matches_name bare e ≡ true) ↔ IsUnder bare e
matches_name_iff bare e = (matches_name→IsUnder bare e, back)
  where
    back : IsUnder bare e → matches_name bare e ≡ true
    back (inl same) = rw same (matches_name-same e)
    back (inr (front, same)) = rw same (matches_name-append front e)
