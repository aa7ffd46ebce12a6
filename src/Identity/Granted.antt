-- ===== src/Identity/Granted.antt =====
-- No request has more access than an identity grants it.
use vigil_rs.Prelude.{
  ℕ, ◌≤◌, Bool, true, false, ◌≡◌, refl, sym, ◌⊎◌, inl, inr, Option, none, some, List, [], ◌∷◌,
  String, lookup, values, arith, Bool-cases, Option-cases, ltb, str_eq, is_empty, if◌then◌else◌,
}
use vigil_rs.Identity.Store.{
  IdentityAccess, open_access, level, Identity, Checks, Store, higher, max_access, is_local,
  is_signed, has_password, local_access, tls_access, basic_access,
}
use vigil_rs.Identity.Access.{Request, by_basic, by_cert, by_uid, resolve_access, caller, allows}

-- An entry of the store.
pub data IsMember (i : Identity) : Store → Type 0 where
  first : {name : String} {rest : Store} → IsMember i ((name, i) ∷ rest)
  later : {entry : String × Identity} {rest : Store} → IsMember i rest → IsMember i (entry ∷ rest)

-- What a request shows of an identity of the store; a password counts only for the identity under the
-- user name that comes with it.
pub data Proves (checks : Checks) (s : Store) (r : Request) (i : Identity) : Type 0 where
  by_password :
      (user password : String)
      → r.basic ≡ some (user, password)
      → lookup user s ≡ some i
      → has_password checks password i ≡ true
      → Proves checks s r i
  by_certificate :
      (cert : List ℕ)
      → r.peer_cert ≡ some cert
      → is_signed checks cert i ≡ true
      → Proves checks s r i
  by_user_id : (uid : ℕ) → r.peer_uid ≡ some uid → is_local uid i ≡ true → Proves checks s r i

-- An identity of the store that passes the test has this access.
pub record IsGranted (grants : Identity → Bool) (s : Store) (a : IdentityAccess) : Type 0 where
  pub identity : Identity
  pub member : IsMember identity s
  pub grants_it : grants identity ≡ true
  pub access : identity.access ≡ a

higher_cases :
    (a : IdentityAccess) (o : Option IdentityAccess) → (higher a o ≡ a) ⊎ (o ≡ some (higher a o))
higher_cases a none = inl refl
higher_cases a (some b) = elim (Bool-cases (ltb (level b) (level a))) [
  | inl above ↦ inl (rw above refl)
  | inr not_above ↦ inr (rw not_above refl)
]

later-IsGranted :
    (grants : Identity → Bool) (entry : String × Identity) (rest : Store) {a : IdentityAccess}
    → IsGranted grants rest a
    → IsGranted grants (entry ∷ rest) a
later-IsGranted grants entry rest g = record {
  identity = g.identity;
  member = later g.member;
  grants_it = g.grants_it;
  access = g.access;
}

-- What one more entry of the store grants.
one-IsGranted :
    (grants : Identity → Bool) (name : String) (i : Identity) (rest : Store)
    (found : Option IdentityAccess) {a : IdentityAccess}
    → ((b : IdentityAccess) → found ≡ some b → IsGranted grants rest b)
    → (if grants i then some (higher i.access found) else found) ≡ some a
    → IsGranted grants ((name, i) ∷ rest) a
one-IsGranted grants name i rest found {a} before h = elim (Bool-cases (grants i)) [
  | inr refused ↦ later-IsGranted grants (name, i) rest (before a (ground (arith, h, refused)))
  | inl granted ↦
      let same : some (higher i.access found) ≡ some a = ground (arith, h, granted) in
      elim (higher_cases i.access found) [
        | inl own ↦ record {
          identity = i;
          member = first;
          grants_it = granted;
          access = cc (same, own);
        }
        | inr other ↦ later-IsGranted grants (name, i) rest (before a (cc (same, other)))
      ]
]

max_access-IsGranted :
    (grants : Identity → Bool) (s : Store) {a : IdentityAccess}
    → max_access grants (values s) ≡ some a
    → IsGranted grants s a
unfolding max_access values
max_access-IsGranted grants [] h = cc
max_access-IsGranted grants ((name, i) ∷ rest) h =
    one-IsGranted grants name i rest (max_access grants (values rest))
      (λ b found. max_access-IsGranted grants rest found) h

lookup-IsMember : (name : String) (s : Store) {i : Identity} → lookup name s ≡ some i → IsMember i s
unfolding lookup
lookup-IsMember name [] h = cc
lookup-IsMember name ((other, j) ∷ rest) {i} h = elim (Bool-cases (str_eq other name)) [
  | inl here ↦ head (ground (arith, h, here))
  | inr away ↦ later (lookup-IsMember name rest (ground (arith, h, away)))
]
  where
    head : j ≡ i → IsMember i ((other, j) ∷ rest)
    head same = rw (sym same) first

-- The request proves to be an identity of the store that has this access.
pub record IsAuthenticated (checks : Checks) (s : Store) (r : Request) (a : IdentityAccess)
    : Type 0 where
  pub identity : Identity
  pub member : IsMember identity s
  pub proof : Proves checks s r identity
  pub access : identity.access ≡ a

module _ (checks : Checks) (s : Store) (r : Request) where
  by_basic-IsAuthenticated :
      {a : IdentityAccess} → by_basic checks r.basic s ≡ some a → IsAuthenticated checks s r a
  unfolding by_basic basic_access
  by_basic-IsAuthenticated {a} h = elim (Option-cases r.basic) [
    | inl e ↦ absurd (ground (arith, h, e))
    | inr ((user, password), e) ↦ elim (Option-cases (lookup user s)) [
      | inl unknown ↦ absurd (ground (arith, h, e, unknown))
      | inr (i, known) ↦ elim (Bool-cases (has_password checks password i)) [
        | inr wrong ↦ absurd (ground (arith, h, e, known, wrong))
        | inl right ↦ record {
          identity = i;
          member = lookup-IsMember user s known;
          proof = by_password user password e known right;
          access = ground (arith, h, e, known, right);
        }
      ]
    ]
  ]

  by_cert-IsAuthenticated :
      {a : IdentityAccess} → by_cert checks r.peer_cert s ≡ some a → IsAuthenticated checks s r a
  unfolding by_cert tls_access
  by_cert-IsAuthenticated {a} h = elim (Option-cases r.peer_cert) [
    | inl e ↦ absurd (ground (arith, h, e))
    | inr (cert, e) ↦
        let g = max_access-IsGranted (is_signed checks cert) s (ground (arith, h, e)) in
        record {
          identity = g.identity;
          member = g.member;
          proof = by_certificate cert e g.grants_it;
          access = g.access;
        }
  ]

  by_uid-IsAuthenticated :
      {a : IdentityAccess} → by_uid r.peer_uid s ≡ some a → IsAuthenticated checks s r a
  unfolding by_uid local_access
  by_uid-IsAuthenticated {a} h = elim (Option-cases r.peer_uid) [
    | inl e ↦ absurd (ground (arith, h, e))
    | inr (uid, e) ↦
        let g = max_access-IsGranted (is_local uid) s (ground (arith, h, e)) in
        record {
          identity = g.identity;
          member = g.member;
          proof = by_user_id uid e g.grants_it;
          access = g.access;
        }
  ]

  resolve_access-IsAuthenticated :
      (resolve_access checks s r ≡ open_access)
      ⊎ IsAuthenticated checks s r (resolve_access checks s r)
  unfolding resolve_access
  resolve_access-IsAuthenticated = elim (Option-cases (by_basic checks r.basic s)) [
    | inr (a, e) ↦ rw (resolve_access, e) (inr (by_basic-IsAuthenticated e))
    | inl no_basic ↦ elim (Option-cases (by_cert checks r.peer_cert s)) [
      | inr (a, e) ↦ rw (resolve_access, no_basic, e) (inr (by_cert-IsAuthenticated e))
      | inl no_cert ↦ elim (Option-cases (by_uid r.peer_uid s)) [
        | inr (a, e) ↦ rw (resolve_access, no_basic, no_cert, e) (inr (by_uid-IsAuthenticated e))
        | inl no_uid ↦ rw (resolve_access, no_basic, no_cert, no_uid) (inl refl)
      ]
    ]
  ]

  -- While there is an identity, a request that passes the test for an access level is one to the open
  -- endpoints, or it proves to be an identity of the store, and that identity has at least this level:
  -- by its name and its password, by a certificate that the identity's CA signed, or by the user id of
  -- the peer.
  pub allows-IsAuthenticated :
      (needed : IdentityAccess)
      → is_empty s ≡ false
      → allows (caller checks s r) needed ≡ true
      → (level needed ≡ 0)
        ⊎ ((a : IdentityAccess) × IsAuthenticated checks s r a × (level needed ≤ level a))
  unfolding caller allows
  allows-IsAuthenticated needed present allowed = elim resolve_access-IsAuthenticated [
    | inl opened ↦ inl (ground (arith, present, allowed, opened))
    | inr proven ↦ inr (resolve_access checks s r, proven, ground (arith, present, allowed))
  ]
