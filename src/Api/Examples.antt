-- ===== src/Api/Examples.antt =====
-- A request of an administrator to crates/vigild/src/api/handlers/, and the names in a query.
use vigil_rs.Prelude.{◌≡◌, ◌≤◌, refl, sym, ◌∙◌, true, false, none, some, [], ◌∷◌, str_eq, lookup}
use vigil_rs.Identity.{
  IdentityAccess, admin_access, write_access, level, Identity, Checks, Request, caller, allows,
  basic_access, resolve_access,
}
use vigil_rs.Identity.Granted.{IsAuthenticated}
use vigil_rs.Logs.{new_store}
use vigil_rs.Overlord.Load.{LoadError}
use vigil_rs.Overlord.Samples.{surroundings}
use vigil_rs.Api.{AppState, daemon_action, vigild_post, DaemonAction, router, require}
use vigil_rs.Api.Names.{parse_names}
use vigil_rs.Api.Access.{IsReadOnly, router-IsAuthenticated}

parse_names_test : parse_names (some " web, ,db ,") ≡ "web" ∷ "db" ∷ []
unfolding parse_names
parse_names_test = refl

parse_names-none_test : parse_names none ≡ []
unfolding parse_names
parse_names-none_test = refl

abbrev checks : Checks
checks = record {
  verify_cert_against_ca = λ cert ca. false;
  sha512_check = λ password hash. str_eq password hash;
}

abbrev root : Identity
root = record {
  name = "root";
  access = admin_access;
  local = none;
  basic = some "secret";
  tls = none;
}

abbrev state : AppState
state = record {
  identity_store = ("root", root) ∷ [];
  log_store = new_store 10;
  commands = [];
  is_closed = false;
  shutdown = [];
}

abbrev request : Request
request = record { basic = some ("root", "secret"); peer_cert = none; peer_uid = none }

is_answered : allows (caller checks state.identity_store request) admin_access ≡ true
unfolding allows caller resolve_access basic_access lookup
is_answered = refl

-- The daemon is told to stop.
told : AppState
told =
    (router {E = LoadError} (caller checks state.identity_store request)
      (vigild_post DaemonAction.stop) none state).1

is_told : told.shutdown ≡ DaemonAction.stop ∷ []
unfolding told router daemon_action require allows caller resolve_access basic_access lookup
is_told = refl

cons-ne-nil : {a : DaemonAction} → ¬ (a ∷ [] ≡ [])
cons-ne-nil e = cc

writes : ¬ IsReadOnly surroundings state told
writes r = cons-ne-nil (sym is_told ∙ r.daemon_stays)

router-IsAuthenticated_example :
    (granted : IdentityAccess) × IsAuthenticated checks state.identity_store request granted
    × (level write_access ≤ level granted)
unfolding told
router-IsAuthenticated_example =
    router-IsAuthenticated surroundings checks request (vigild_post DaemonAction.stop) none state
      refl writes
