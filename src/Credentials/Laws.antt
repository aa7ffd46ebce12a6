-- ===== src/Credentials/Laws.antt =====
-- What `resolve_credentials` answers.
use mathlib.Core.Path.{subst}
use vigil_rs.Prelude.{
  ℕ, true, ◌≡◌, ◌≢◌, refl, ◌∙◌, if◌then◌else◌, ◌↔◌, Option, none, some, String, Result, ok,
  >>=-eq-ok, get_or, arith, List,
}
use vigil_rs.Credentials.{
  Accounts, User, Credentials, CredentialError, has_gid, resolve_uid, resolve_gid, with_gid,
  complete, primary_gid, listed_groups, none_configured, resolve_credentials,
}

-- The group of the credentials: the configured one; else the one in the user's passwd entry; else,
-- for a uid with no entry, the number of the uid.
pub data IsPrimaryGid (os : Accounts) (uid : ℕ) : Option ℕ → ℕ → Type 0 where
  configured : (g : ℕ) → IsPrimaryGid os uid (some g) g
  from_passwd : (u : User) → os.user_from_uid uid ≡ ok (some u) → IsPrimaryGid os uid none u.gid
  same_as_uid : os.user_from_uid uid ≡ ok none → IsPrimaryGid os uid none uid

has_gid-with_gid : (g : ℕ) (groups : List ℕ) → has_gid (with_gid g groups) g ≡ true
unfolding with_gid
has_gid-with_gid g groups = ground arith

module _ (os : Accounts) where
  -- What the completed credentials are.
  pub record IsComplete (uid gid : Option ℕ) (c : Credentials) : Type 0 where
    pub uid_is : c.uid ≡ get_or uid os.effective_uid
    pub gid_is : IsPrimaryGid os c.uid gid c.gid
    pub in_groups : has_gid c.groups c.gid ≡ true

  primary_gid-IsPrimaryGid :
      (gid : Option ℕ) (pw : Option User) (uid : ℕ)
      → os.user_from_uid uid ≡ ok pw
      → IsPrimaryGid os uid gid (primary_gid gid pw uid)
  unfolding primary_gid
  primary_gid-IsPrimaryGid (some g) pw uid h = configured g
  primary_gid-IsPrimaryGid none (some u) uid h = from_passwd u h
  primary_gid-IsPrimaryGid none none uid h = same_as_uid h

  complete-IsComplete :
      (uid gid : Option ℕ) (c : Credentials)
      → complete os uid gid ≡ ok (some c)
      → IsComplete uid gid c
  unfolding complete
  complete-IsComplete uid gid c h =
      let (pw, entry, h1) = >>=-eq-ok (os.user_from_uid (get_or uid os.effective_uid)) _ h in
      let g = primary_gid gid pw (get_or uid os.effective_uid) in
      let (groups, listed, h2) = >>=-eq-ok (listed_groups os pw g) _ h1 in
      subst (IsComplete uid gid) (cc h2) (record {
        uid_is = refl;
        gid_is = primary_gid-IsPrimaryGid gid pw (get_or uid os.effective_uid) entry;
        in_groups = has_gid-with_gid g groups;
      })

  complete-ne-none : (uid gid : Option ℕ) → complete os uid gid ≢ ok none
  unfolding complete
  complete-ne-none uid gid h =
      let (pw, entry, h1) = >>=-eq-ok (os.user_from_uid (get_or uid os.effective_uid)) _ h in
      let g = primary_gid gid pw (get_or uid os.effective_uid) in
      let (groups, listed, h2) = >>=-eq-ok (listed_groups os pw g) _ h1 in cc h2

  -- The last line of `resolve_credentials`, taken apart.
  abbrev finished : Option ℕ → Option ℕ → Result CredentialError (Option Credentials)
  finished uid gid = if none_configured uid gid then ok none else complete os uid gid

  complete-of_finished :
      (uid gid : Option ℕ) (c : Credentials)
      → finished uid gid ≡ ok (some c)
      → complete os uid gid ≡ ok (some c)
  complete-of_finished uid gid c h = ground arith

  none-of_finished : (uid gid : Option ℕ) → finished uid gid ≡ ok none → (uid ≡ none) × (gid ≡ none)
  none-of_finished none none h = (refl, refl)
  none-of_finished none (some g) h = absurd (complete-ne-none none (some g) h)
  none-of_finished (some u) gid h = absurd (complete-ne-none (some u) gid h)

  -- The ids that the configuration names are looked up, and compared with the number beside them.
  pub record IsConfigured (user : Option String) (user_id uid : Option ℕ) : Type 0 where
    pub numbered : (id : ℕ) → user_id ≡ some id → uid ≡ some id
    pub unset : user ≡ none → user_id ≡ none → uid ≡ none
    pub set : uid ≡ none → (user ≡ none) × (user_id ≡ none)

  resolve_uid-IsConfigured :
      (user : Option String) (user_id : Option ℕ) {uid : Option ℕ}
      → resolve_uid os user user_id ≡ ok uid
      → IsConfigured user user_id uid
  unfolding resolve_uid
  resolve_uid-IsConfigured (some name) (some id) h = record {
    numbered = λ id e. ground arith;
    unset = ground arith;
    set = ground arith;
  }
  resolve_uid-IsConfigured (some name) none h = record {
    numbered = λ id e. ground arith;
    unset = ground arith;
    set = ground arith;
  }
  resolve_uid-IsConfigured none (some id) h = record {
    numbered = λ id e. ground arith;
    unset = ground arith;
    set = ground arith;
  }
  resolve_uid-IsConfigured none none h = record {
    numbered = λ id e. ground arith;
    unset = ground arith;
    set = ground arith;
  }

  resolve_gid-IsConfigured :
      (group : Option String) (group_id : Option ℕ) {gid : Option ℕ}
      → resolve_gid os group group_id ≡ ok gid
      → IsConfigured group group_id gid
  unfolding resolve_gid
  resolve_gid-IsConfigured (some name) (some id) h = record {
    numbered = λ id e. ground arith;
    unset = ground arith;
    set = ground arith;
  }
  resolve_gid-IsConfigured (some name) none h = record {
    numbered = λ id e. ground arith;
    unset = ground arith;
    set = ground arith;
  }
  resolve_gid-IsConfigured none (some id) h = record {
    numbered = λ id e. ground arith;
    unset = ground arith;
    set = ground arith;
  }
  resolve_gid-IsConfigured none none h = record {
    numbered = λ id e. ground arith;
    unset = ground arith;
    set = ground arith;
  }

module _ (os : Accounts) (user : Option String) (user_id : Option ℕ) (group : Option String)
    (group_id : Option ℕ) where
  -- What a child that is given credentials runs as.
  pub record IsResolved (c : Credentials) : Type 0 where
    pub uid_numbered : (id : ℕ) → user_id ≡ some id → c.uid ≡ id
    pub uid_unset : user ≡ none → user_id ≡ none → c.uid ≡ os.effective_uid
    pub gid_numbered : (id : ℕ) → group_id ≡ some id → c.gid ≡ id
    pub gid_unset : group ≡ none → group_id ≡ none → IsPrimaryGid os c.uid none c.gid
    pub in_groups : has_gid c.groups c.gid ≡ true

  IsResolved-of_parts :
      (uid gid : Option ℕ) (c : Credentials)
      → IsConfigured os user user_id uid
      → IsConfigured os group group_id gid
      → IsComplete os uid gid c
      → IsResolved c
  IsResolved-of_parts uid gid c u g done = record {
    uid_numbered = λ id e. done.uid_is ∙ rw (u.numbered id e);
    uid_unset = λ e f. done.uid_is ∙ rw (u.unset e f);
    gid_numbered = λ id e. gid_of id (rw (g.numbered id e) at done.gid_is);
    gid_unset = λ e f. rw (g.unset e f) at done.gid_is;
    in_groups = done.in_groups;
  }
    where
      gid_is : {o : Option ℕ} {n : ℕ} → IsPrimaryGid os c.uid o n → (id : ℕ) → o ≡ some id → n ≡ id
      gid_is (configured n) id e = cc
      gid_is (from_passwd pw e') id e = cc
      gid_is (same_as_uid e') id e = cc

      gid_of : (id : ℕ) → IsPrimaryGid os c.uid (some id) c.gid → c.gid ≡ id
      gid_of id p = gid_is p id refl

  -- When credentials are returned, a numeric id of the configuration is the child's; with no user
  -- the child keeps the uid of the daemon, with no group it has the user's own group, or the number
  -- of the uid for a uid without a passwd entry; and its group is among its supplementary groups.
  pub resolve_credentials-IsResolved :
      (c : Credentials)
      → resolve_credentials os user user_id group group_id ≡ ok (some c)
      → IsResolved c
  unfolding resolve_credentials
  resolve_credentials-IsResolved c h =
      let (uid, u, h1) = >>=-eq-ok (resolve_uid os user user_id) _ h in
      let (gid, g, h2) = >>=-eq-ok (resolve_gid os group group_id) _ h1 in
      IsResolved-of_parts uid gid c (resolve_uid-IsConfigured os user user_id u)
        (resolve_gid-IsConfigured os group group_id g)
        (complete-IsComplete os uid gid c (complete-of_finished os uid gid c h2))

  -- No credentials are set exactly if no user and no group is configured.
  pub resolve_credentials-none_iff :
      (resolve_credentials os user user_id group group_id ≡ ok none)
      ↔ ((user ≡ none) × (user_id ≡ none) × (group ≡ none) × (group_id ≡ none))
  unfolding resolve_credentials
  resolve_credentials-none_iff = (
    λ h.
        let (uid, u, h1) = >>=-eq-ok (resolve_uid os user user_id) _ h in
        let (gid, g, h2) = >>=-eq-ok (resolve_gid os group group_id) _ h1 in
        let unset = none-of_finished os uid gid h2 in
        let no_user = (resolve_uid-IsConfigured os user user_id u).set unset.0 in
        let no_group = (resolve_gid-IsConfigured os group group_id g).set unset.1 in
        (no_user.0, no_user.1, no_group.0, no_group.1),
    λ e. unfold resolve_uid resolve_gid in rw (e.0, e.1, e.2, e.3),
  )
