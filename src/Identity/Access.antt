-- ===== src/Identity/Access.antt =====
-- `resolve_access` and `Caller` of crates/vigild/src/api/auth/mod.rs. The decoding of the header is an
-- argument, its result.
use vigil_rs.Prelude.{
  ℕ, Bool, Option, none, some, List, String, is_empty, leb, if◌then◌else◌, or_else, get_or,
}
use vigil_rs.Identity.Store.{
  IdentityAccess, open_access, admin_access, level, Checks, Store, local_access, tls_access,
  basic_access,
}

pub record Request : Type 0 where
  -- the user and the password of a well-formed `Authorization: Basic` header
  pub basic : Option (String × String)
  pub peer_cert : Option (List ℕ)
  pub peer_uid : Option ℕ

unfoldable pub by_basic : Checks → Option (String × String) → Store → Option IdentityAccess
by_basic checks none s = none
by_basic checks (some (user, password)) s = basic_access checks user password s

unfoldable pub by_cert : Checks → Option (List ℕ) → Store → Option IdentityAccess
by_cert checks none s = none
by_cert checks (some cert) s = tls_access checks cert s

unfoldable pub by_uid : Option ℕ → Store → Option IdentityAccess
by_uid none s = none
by_uid (some uid) s = local_access uid s

unfoldable pub resolve_access : Checks → Store → Request → IdentityAccess
unfolding by_basic by_cert by_uid
resolve_access checks s r =
    get_or
      (or_else (by_basic checks r.basic s)
        (or_else (by_cert checks r.peer_cert s) (by_uid r.peer_uid s)))
      open_access

-- `Caller::from_request_parts`
unfoldable pub caller : Checks → Store → Request → IdentityAccess
unfolding resolve_access
caller checks s r = if is_empty s then admin_access else resolve_access checks s r

-- `Caller::require`: the request goes on, or is forbidden
unfoldable pub allows : IdentityAccess → IdentityAccess → Bool
allows has needed = leb (level needed) (level has)
