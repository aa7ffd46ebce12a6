-- ===== src/Duration/Tests.antt =====
-- Runs of the parser.
use vigil_rs.Prelude.{◌≡◌, ◌≢◌, ◌<◌, refl, codes, ok, err, [], ◌∷◌, arith}
use vigil_rs.Duration.Grammar.{minutes, seconds}
use vigil_rs.Duration.Laws.{parse_duration-text}
use vigil_rs.Duration.Sound.{IsDuration, parse_duration-IsDuration}
use vigil_rs.Duration.{u64_mod, parse_duration, unknown_suffix, overflow, empty}

chained : parse_duration (codes "1m30s") ≡ ok 90_000
unfolding parse_duration
chained = refl

small : parse_duration (codes "500ms") ≡ ok 500
unfolding parse_duration
small = refl

no_unit : parse_duration (codes "5x") ≡ err unknown_suffix
unfolding parse_duration
no_unit = refl

nothing : parse_duration (codes "") ≡ err empty
unfolding parse_duration
nothing = refl

too_long : parse_duration (codes "18446744073709551615h") ≡ err overflow
unfolding parse_duration
too_long = refl

parse_duration-text_example : parse_duration (codes "1m30s") ≡ ok 90_000
parse_duration-text_example =
    parse_duration-text (record { first = b'1'; others = []; unit = minutes })
      (record { first = b'3'; others = b'0' ∷ []; unit = seconds } ∷ []) (refl, (refl, tt))
      (omega arith)

parse_duration-IsDuration_example :
    IsDuration 0 90_000 (codes "1m30s") × (90_000 < u64_mod) × (codes "1m30s" ≢ [])
parse_duration-IsDuration_example = parse_duration-IsDuration (codes "1m30s") chained
