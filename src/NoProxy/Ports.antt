-- ===== src/NoProxy/Ports.antt =====
-- What `strip_port` makes of a host with a port, and of an address in brackets.
use vigil_rs.Prelude.{
  ℕ, ◌+◌, ◌≡◌, ◌&&◌, not, refl, Bool, true, some, none, [], ◌∷◌, ◌++◌, Text, all, ◌==◌, is_digit,
  arith, and_parts,
}
use vigil_rs.NoProxy.Strings.{count, rsplit_once, split_once, all_digits}
use vigil_rs.NoProxy.{strip_port, plain_host, bracketed}

rsplit_once-none : (k : ℕ) (s : Text) → all (λ c. not (c == k)) s ≡ true → rsplit_once k s ≡ none
unfolding rsplit_once
rsplit_once-none k [] h = refl
rsplit_once-none k (c ∷ s) h = ground (arith, rsplit_once-none k s)

rsplit_once-append :
    (k : ℕ) (front back : Text)
    → all (λ c. not (c == k)) back ≡ true
    → rsplit_once k (front ++ k ∷ back) ≡ some (front, back)
unfolding rsplit_once
rsplit_once-append k [] back h = rw (rsplit_once-none k back h) (ground arith)
rsplit_once-append k (c ∷ front) back h = rw (rsplit_once-append k front back h) refl

digits_plain : (s : Text) → all is_digit s ≡ true → all (λ c. not (c == b':')) s ≡ true
digits_plain [] h = refl
digits_plain (c ∷ s) h = ground (arith, digits_plain s)

count-none : (k : ℕ) (s : Text) → all (λ c. not (c == k)) s ≡ true → count k s ≡ 0
unfolding count
count-none k [] h = refl
count-none k (c ∷ s) h = ground (arith, count-none k s)

count-append : (k : ℕ) (front back : Text) → count k (front ++ back) ≡ count k front + count k back
unfolding count
count-append k [] back = omega arith
count-append k (c ∷ front) back = omega (arith, count-append k front back)

split_once-append :
    (k : ℕ) (front back : Text)
    → all (λ c. not (c == k)) front ≡ true
    → split_once k (front ++ k ∷ back) ≡ some (front, back)
unfolding split_once
split_once-append k [] back h = ground arith
split_once-append k (c ∷ front) back h = ground (arith, split_once-append k front back)

-- no colon, and no bracket
abbrev pub is_plain : Text → Bool
is_plain s = all (λ c. not (c == b':')) s && all (λ c. not (c == b'[')) s

bracketed-none :
    (host port : Text)
    → all (λ c. not (c == b'[')) host ≡ true
    → bracketed (host ++ b':' ∷ port) ≡ none
unfolding bracketed
bracketed-none [] port h = refl
bracketed-none (c ∷ host) port h = ground arith

bracketed-some :
    (inside after : Text)
    → all (λ c. not (c == b']')) inside ≡ true
    → bracketed (b'[' ∷ inside ++ b']' ∷ after) ≡ some inside
unfolding bracketed
bracketed-some inside after h = rw (split_once-append b']' inside after h) refl

plain_host-port :
    (host port : Text)
    → all (λ c. not (c == b':')) host ≡ true
    → all is_digit port ≡ true
    → plain_host (host ++ b':' ∷ port) ≡ host
unfolding plain_host all_digits
plain_host-port host port h d =
    let digits = digits_plain port d in
    let one : count b':' (host ++ b':' ∷ port) ≡ 1 =
      rw
        (
          count-append b':' host (b':' ∷ port),
          count,
          count-none b':' host h,
          count-none b':' port digits,
        )
        refl in
    rw (one, rsplit_once-append b':' host port digits, d) refl

-- A host that has no colon and no bracket, then a colon and digits or nothing: the port goes, and nothing else.
-- A text between brackets comes out of them, whatever follows.
pub strip_port-ports :
    (host port inside after : Text)
    → is_plain host ≡ true
    → all is_digit port ≡ true
    → all (λ c. not (c == b']')) inside ≡ true
    → (strip_port (host ++ b':' ∷ port) ≡ host)
      × (strip_port (b'[' ∷ inside ++ b']' ∷ after) ≡ inside)
unfolding strip_port
strip_port-ports host port inside after plain digits closed =
    let (colons, brackets) = and_parts _ _ plain in
    (
      rw (strip_port, bracketed-none host port brackets) (plain_host-port host port colons digits),
      rw (strip_port, bracketed-some inside after closed) refl,
    )
