-- ===== src/Credentials.antt =====
-- crates/vigild/src/process_util/identity.rs: the user, the group and the supplementary groups that
-- a child process runs as. The user and group databases and the process's own ids are the record
-- `Accounts`, a parameter.
mod Laws
mod Examples
use vigil_rs.Prelude.{
  ℕ, Bool, true, false, not, ◌&&◌, Option, none, some, List, [], ◌∷◌, String, codes, ◌==◌, any,
  Result, ok, err, ◌>>=◌, get_or, ok_or, if◌then◌else◌,
}

pub data CredentialError : Type 0 where
  lookup_failed user_not_found group_not_found uid_mismatch gid_mismatch nul_in_name :
      CredentialError

-- an entry of the passwd database
pub record User : Type 0 where
  pub name : String
  pub uid : ℕ
  pub gid : ℕ

-- What the C library answers: `getpwnam`, `getpwuid`, `getgrnam` (the group's id), `getgrouplist`,
-- `geteuid` and `getegid`. An error of a call is `err`, an entry that is not there `ok none`.
pub record Accounts : Type 0 where
  pub user_from_name : String → Result CredentialError (Option User)
  pub user_from_uid : ℕ → Result CredentialError (Option User)
  pub group_from_name : String → Result CredentialError (Option ℕ)
  pub group_list : String → ℕ → Result CredentialError (List ℕ)
  pub effective_uid : ℕ
  pub effective_gid : ℕ

pub record Credentials : Type 0 where
  pub uid : ℕ
  pub gid : ℕ
  pub groups : List ℕ

-- `groups.contains(&gid)`
abbrev pub has_gid : List ℕ → ℕ → Bool
has_gid groups g = any (λ x. x == g) groups

-- what `CString::new` refuses
abbrev has_nul : String → Bool
has_nul name = any (λ c. c == 0) (codes name)

abbrev uid_of : Option User → Result CredentialError ℕ
uid_of none = err user_not_found
uid_of (some u) = ok u.uid

-- the group that is configured, the user's own one, or the uid
primary_gid : Option ℕ → Option User → ℕ → ℕ
primary_gid (some g) pw uid = g
primary_gid none (some pw) uid = pw.gid
primary_gid none none uid = uid

-- `groups.insert(0, gid)` unless it is there
with_gid : ℕ → List ℕ → List ℕ
with_gid gid groups = if has_gid groups gid then groups else gid ∷ groups

abbrev none_configured : Option ℕ → Option ℕ → Bool
none_configured none none = true
none_configured _ _ = false

module _ (os : Accounts) where
  lookup_uid : String → Result CredentialError ℕ
  lookup_uid name = os.user_from_name name >>= uid_of

  lookup_gid : String → Result CredentialError ℕ
  lookup_gid name = os.group_from_name name >>= λ g. ok_or g group_not_found

  unfoldable pub resolve_uid : Option String → Option ℕ → Result CredentialError (Option ℕ)
  unfolding lookup_uid
  resolve_uid (some name) (some id) = do
    uid ← lookup_uid name
    if uid == id then ok (some uid) else err uid_mismatch
  resolve_uid (some name) none = do uid ← lookup_uid name; ok (some uid)
  resolve_uid none (some id) = ok (some id)
  resolve_uid none none = ok none

  unfoldable pub resolve_gid : Option String → Option ℕ → Result CredentialError (Option ℕ)
  unfolding lookup_gid
  resolve_gid (some name) (some id) = do
    gid ← lookup_gid name
    if gid == id then ok (some gid) else err gid_mismatch
  resolve_gid (some name) none = do gid ← lookup_gid name; ok (some gid)
  resolve_gid none (some id) = ok (some id)
  resolve_gid none none = ok none

  listed_groups : Option User → ℕ → Result CredentialError (List ℕ)
  listed_groups none gid = ok []
  listed_groups (some pw) gid =
      if has_nul pw.name then err nul_in_name else os.group_list pw.name gid

  -- The part behind the early return: a user or a group is configured.
  complete : Option ℕ → Option ℕ → Result CredentialError (Option Credentials)
  unfolding primary_gid listed_groups with_gid
  complete uid gid = do
    let u = get_or uid os.effective_uid
    pw ← os.user_from_uid u
    let g = primary_gid gid pw u
    groups ← listed_groups pw g
    ok (some (record { uid = u; gid = g; groups = with_gid g groups }))

  unfoldable pub resolve_credentials :
      Option String
      → Option ℕ
      → Option String
      → Option ℕ
      → Result CredentialError (Option Credentials)
  unfolding resolve_uid resolve_gid complete
  resolve_credentials user user_id group group_id = do
    uid ← resolve_uid user user_id
    gid ← resolve_gid group group_id
    if none_configured uid gid then ok none else complete uid gid

  -- `Uid::is_root` is uid 0.
  unfoldable pub is_current_unprivileged : Credentials → Bool
  is_current_unprivileged c =
      not (os.effective_uid == 0) && c.uid == os.effective_uid && c.gid == os.effective_gid

  -- The credentials that `apply_credentials` hands to the hook before `exec`, if it installs one.
  unfoldable pub apply_credentials : Option Credentials → Option Credentials
  unfolding is_current_unprivileged
  apply_credentials none = none
  apply_credentials (some c) = if is_current_unprivileged c then none else some c
