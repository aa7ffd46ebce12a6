-- ===== src/Check/Reports.antt =====
-- What a check's events say of its status.
use vigil_rs.Prelude.{
  Bool, true, false, ◌≡◌, refl, List, [], ◌∷◌, String, none, some, eq_refl, arith, if◌then◌else◌,
}
use vigil_rs.Plan.{CheckConfig}
use vigil_rs.Alert.{CheckStatus}
use vigil_rs.Alert.History.{last_status}
use vigil_rs.Check.Actor.{CheckActor, begin, tick, ticks, succeeded, failed_once, send}

-- Before the first round there is no event; after it the newest is about this check and its status.
record IsReported (a : CheckActor) : Type 0 where
  newest : last_status a.name a.events ≡ (if a.first_run then none else some a.status)

tick-IsReported : (ok : Bool) (a : CheckActor) → IsReported a → IsReported (tick ok a)
unfolding tick succeeded failed_once send
tick-IsReported true a h = record { newest = ground (arith, h.newest, eq_refl a.name) }
tick-IsReported false a h = record { newest = ground (arith, h.newest, eq_refl a.name) }

first_run-tick : (ok : Bool) (a : CheckActor) → (tick ok a).first_run ≡ false
unfolding tick succeeded failed_once send
first_run-tick ok a = ground arith

name-tick : (ok : Bool) (a : CheckActor) → (tick ok a).name ≡ a.name
unfolding tick succeeded failed_once send
name-tick ok a = ground arith

name-ticks : (results : List Bool) (a : CheckActor) → (ticks results a).name ≡ a.name
unfolding ticks
name-ticks [] a = refl
name-ticks (ok ∷ before) a = ground (arith, name-tick ok (ticks before a), name-ticks before a)

ticks-IsReported :
    (results : List Bool) (a : CheckActor) → IsReported a → IsReported (ticks results a)
unfolding ticks
ticks-IsReported [] a h = h
ticks-IsReported (ok ∷ before) a h =
    tick-IsReported ok (ticks before a) (ticks-IsReported before a h)

-- From the first probe on, the newest event that a check has sent carries its present status, whatever
-- the probes gave: a receiver of the events always knows the status.
pub last_status-ticks :
    (name : String) (config : CheckConfig) (initial : CheckStatus) (ok : Bool) (before : List Bool)
    → let a = ticks (ok ∷ before) (begin name config initial) in
      last_status name a.events ≡ some a.status
unfolding ticks begin
last_status-ticks name config initial ok before =
    let first : CheckActor = begin name config initial in
    let reported = ticks-IsReported (ok ∷ before) first (record { newest = refl }) in
    ground (
      arith,
      reported.newest,
      first_run-tick ok (ticks before first),
      name-ticks (ok ∷ before) first,
    )
