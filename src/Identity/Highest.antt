-- ===== src/Identity/Highest.antt =====
-- The highest access of the identities that match, crates/vigild/src/identity/mod.rs.
use vigil_rs.Prelude.{
  ℕ, ◌≤◌, Bool, true, false, ◌≡◌, refl, Option, none, some, [], ◌∷◌, values, arith, if◌then◌else◌,
}
use vigil_rs.Identity.Store.{
  IdentityAccess, level, Identity, Store, higher, max_access, is_local, local_access,
}
use vigil_rs.Identity.Granted.{IsMember, first, later}

-- Access at this level at least.
abbrev HasAtLeast : IdentityAccess → Option IdentityAccess → Type 0
HasAtLeast low found = (a : IdentityAccess) × (found ≡ some a) × (level low ≤ level a)

higher-left : (a : IdentityAccess) (o : Option IdentityAccess) → level a ≤ level (higher a o)
higher-left a none = omega arith
higher-left a (some b) = ground arith

higher-right : (a b : IdentityAccess) → level b ≤ level (higher a (some b))
higher-right a b = ground arith

-- One more entry takes nothing away.
one-HasAtLeast :
    (low : IdentityAccess) (a : IdentityAccess) (granted : Bool) (found : Option IdentityAccess)
    → HasAtLeast low found
    → HasAtLeast low (if granted then some (higher a found) else found)
one-HasAtLeast low a false found h = h
one-HasAtLeast low a true found (b, e, above) =
    rw e (higher a (some b), refl, omega (arith, above, higher-right a b))

max_access-HasAtLeast :
    (grants : Identity → Bool) (s : Store) (i : Identity)
    → IsMember i s
    → grants i ≡ true
    → HasAtLeast i.access (max_access grants (values s))
unfolding max_access values
max_access-HasAtLeast grants [] i member h = elim member [ ]
max_access-HasAtLeast grants ((name, _) ∷ rest) i first h = rw h (
  higher i.access (max_access grants (values rest)),
  refl,
  higher-left i.access (max_access grants (values rest)),
)
max_access-HasAtLeast grants ((name, j) ∷ rest) i (later member) h =
    one-HasAtLeast i.access j.access (grants j) (max_access grants (values rest))
      (max_access-HasAtLeast grants rest i member h)

-- A local peer is granted access, and at least that of every identity of the store that is for its user
-- id or for any.
local_access-HasAtLeast :
    (uid : ℕ) (s : Store) (i : Identity)
    → IsMember i s
    → is_local uid i ≡ true
    → HasAtLeast i.access (local_access uid s)
unfolding local_access
local_access-HasAtLeast uid s i member h = max_access-HasAtLeast (is_local uid) s i member h
