-- ===== src/Identity/Store.antt =====
-- `IdentityStore` of crates/vigild/src/identity/mod.rs and its types (crates/vigil-types/src/identity.rs).
-- The check of a password against its hash and of a certificate against a CA are arguments.
use vigil_rs.Prelude.{
  ℕ, Bool, true, false, ◌||◌, Option, none, some, List, [], ◌∷◌, String, Map, lookup, insert,
  remove, values, contains, keep, is_empty, is_some, ltb, ◌==◌, if◌then◌else◌,
}

pub data IdentityAccess : Type 0 where
  open_access metrics_access read_access write_access admin_access : IdentityAccess

-- the order of the levels
abbrev pub level : IdentityAccess → ℕ
level open_access = 0
level metrics_access = 1
level read_access = 2
level write_access = 3
level admin_access = 4

pub record Identity : Type 0 where
  pub name : String
  pub access : IdentityAccess
  -- a local identity, with the user id that it is restricted to
  pub local : Option (Option ℕ)
  -- the hash of the password
  pub basic : Option String
  -- the CA certificate
  pub tls : Option String

pub record Checks : Type 0 where
  pub verify_cert_against_ca : List ℕ → String → Bool
  pub sha512_check : String → String → Bool

abbrev pub Store : Type 0
Store = Map Identity

unfoldable pub list : List String → Store → List Identity
list names s = keep (λ i. is_empty names || contains names i.name) (values s)

-- The specification of an identity is one whose name does not count.
unfoldable pub add : String → Identity → Store → Store
add name spec s = insert name (record spec { name = name }) s

unfoldable pub remove_all : List String → Store → List String × Store
remove_all [] s = ([], s)
remove_all (name ∷ rest) s =
    let (removed, s') = remove_all rest (remove name s) in
    (if is_some (lookup name s) then name ∷ removed else removed, s')

-- `Iterator::max` of what the entries grant
abbrev pub higher : IdentityAccess → Option IdentityAccess → IdentityAccess
higher a none = a
higher a (some b) = if ltb (level b) (level a) then a else b

unfoldable pub max_access : (Identity → Bool) → List Identity → Option IdentityAccess
max_access grants [] = none
max_access grants (i ∷ rest) =
    let later = max_access grants rest in if grants i then some (higher i.access later) else later

abbrev pub is_local : ℕ → Identity → Bool
is_local uid i = elim i.local [
  | none ↦ false
  | some user_id ↦ elim user_id [ none ↦ true | some id ↦ id == uid ]
]

abbrev pub is_signed : Checks → List ℕ → Identity → Bool
is_signed checks cert i = elim i.tls [
  | none ↦ false
  | some ca ↦ checks.verify_cert_against_ca cert ca
]

abbrev pub has_password : Checks → String → Identity → Bool
has_password checks password i = elim i.basic [
  | none ↦ false
  | some hash ↦ checks.sha512_check password hash
]

unfoldable pub local_access : ℕ → Store → Option IdentityAccess
unfolding max_access
local_access uid s = max_access (is_local uid) (values s)

unfoldable pub tls_access : Checks → List ℕ → Store → Option IdentityAccess
unfolding max_access
tls_access checks cert s = max_access (is_signed checks cert) (values s)

unfoldable pub basic_access : Checks → String → String → Store → Option IdentityAccess
basic_access checks user password s = elim (lookup user s) [
  | none ↦ none
  | some i ↦ if has_password checks password i then some i.access else none
]
