-- ===== src/Overlord/Samples.antt =====
-- Surroundings for runs of crates/vigild/src/overlord/mod.rs: no layers are there, and no actor of a check answers.
use vigil_rs.Prelude.{ℕ, true, none, err}
use vigil_rs.Overlord.Examples.{host}
use vigil_rs.Overlord.Load.{LoadError, no_directory}
use vigil_rs.Overlord.Main.{Surroundings}

abbrev pub surroundings : Surroundings ℕ LoadError
surroundings = record {
  host = host;
  same = λ a b. true;
  load = λ n. err no_directory;
  ask = λ name. none;
}
