-- ===== src/Identity/Examples.antt =====
-- The theorems on access at a few identities.
use vigil_rs.Prelude.{◌≡◌, ◌≤◌, ◌⊎◌, refl, true, false, none, some, [], ◌∷◌, str_eq, lookup}
use vigil_rs.Identity.Store.{
  IdentityAccess, read_access, write_access, level, Checks, Identity, Store, basic_access,
}
use vigil_rs.Identity.Access.{Request, resolve_access, caller, allows}
use vigil_rs.Identity.Granted.{IsAuthenticated, allows-IsAuthenticated}

-- A hash is its password here, and no certificate is signed.
abbrev checks : Checks
checks = record {
  verify_cert_against_ca = λ cert ca. false;
  sha512_check = λ password hash. str_eq password hash;
}

abbrev store : Store
store =
    (
      "ops",
      record {
        name = "ops";
        access = write_access;
        local = none;
        basic = some "secret";
        tls = none;
      },
    )
    ∷ []

abbrev request : Request
request = record { basic = some ("ops", "secret"); peer_cert = none; peer_uid = none }

may_read : allows (caller checks store request) read_access ≡ true
unfolding allows caller resolve_access basic_access lookup
may_read = refl

allows-IsAuthenticated_example :
    (level read_access ≡ 0)
    ⊎ ((a : IdentityAccess) × IsAuthenticated checks store request a
        × (level read_access ≤ level a))
allows-IsAuthenticated_example =
    allows-IsAuthenticated checks store request read_access refl may_read

-- two identities for the user 7, one of them for any user
abbrev reader : Identity
reader = record { name = "any"; access = read_access; local = some none; basic = none; tls = none }

abbrev writer : Identity
writer = record {
  name = "ops";
  access = write_access;
  local = some (some 7);
  basic = none;
  tls = none;
}
