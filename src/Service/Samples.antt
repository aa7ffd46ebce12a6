-- ===== src/Service/Samples.antt =====
-- A sample of the surroundings of a service actor.
use vigil_rs.Prelude.{ℕ, ◌*◌, none, [], ok}
use vigil_rs.Credentials.{Accounts}
use vigil_rs.Service.Runtime.{World, delivered}

abbrev pub accounts : Accounts
accounts = record {
  user_from_name = λ name. ok none;
  user_from_uid = λ uid. ok none;
  group_from_name = λ name. ok none;
  group_list = λ name gid. ok [];
  effective_uid = 0;
  effective_gid = 0;
}

-- Factors are whole numbers here.
abbrev pub world : World ℕ
world = record {
  scale = λ ms factor. ms * factor;
  two = 2;
  kill = λ target signal. delivered;
  accounts = accounts;
}
