-- ===== src/Credentials/Examples.antt =====
-- The theorems on credentials at one account.
use vigil_rs.Prelude.{
  ℕ, ◌≡◌, refl, Option, none, some, [], ◌∷◌, ok, String, str_eq, ◌==◌, if◌then◌else◌,
}
use vigil_rs.Credentials.{Accounts, User, resolve_credentials}
use vigil_rs.Credentials.Laws.{IsResolved, resolve_credentials-IsResolved}

abbrev www : User
www = record { name = "www"; uid = 33; gid = 33 }

abbrev accounts : Accounts
accounts = record {
  user_from_name = λ name. ok (if str_eq name "www" then some www else none);
  user_from_uid = λ uid. ok (if uid == 33 then some www else none);
  group_from_name = λ name. ok none;
  group_list = λ name gid. ok (4 ∷ []);
  effective_uid = 0;
  effective_gid = 0;
}

as_www :
    resolve_credentials accounts (some "www") none none none
    ≡ ok (some (record { uid = 33; gid = 33; groups = 33 ∷ 4 ∷ [] }))
unfolding resolve_credentials
as_www = refl

resolve_credentials-IsResolved_example :
    IsResolved accounts
      (some "www")
      none
      none
      none
      (record { uid = 33; gid = 33; groups = 33 ∷ 4 ∷ [] })
resolve_credentials-IsResolved_example =
    resolve_credentials-IsResolved accounts (some "www") none none none
      (record { uid = 33; gid = 33; groups = 33 ∷ 4 ∷ [] }) as_www

abbrev no_name : Option String
no_name = none

abbrev no_number : Option ℕ
no_number = none
