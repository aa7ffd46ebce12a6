-- ===== src/Alert/Sender.antt =====
-- `AlertSender` of crates/vigild/src/alert/mod.rs. A job names its alert, the check and the status in
-- place of the payload that is formatted from them. The queue is the channel to the worker: it takes
-- a job while it holds fewer than its capacity.
use vigil_rs.Prelude.{
  ℕ, ◌/◌, Bool, true, false, not, ◌&&◌, Option, List, [], ◌∷◌, ◌++◌, String, Map, lookup, insert,
  contains, length, is_some, ltb, ◌==◌, if◌then◌else◌,
}
use vigil_rs.Plan.{AlertConfig}
use vigil_rs.Alert.Status.{CheckStatus, is_up, was}

pub record AlertEntry : Type 0 where
  pub name : String
  pub config : AlertConfig

pub record DeliveryJob : Type 0 where
  pub alert : AlertEntry
  pub check : String
  pub status : CheckStatus

pub record AlertSender : Type 0 where
  pub alerts : List AlertEntry
  pub state : Map CheckStatus
  pub queue : List DeliveryJob
  pub max_age_secs : ℕ
  pub queue_depth : ℕ

abbrev pub default_delivery_queue : ℕ
default_delivery_queue = 256

-- in seconds
abbrev pub default_delivery_age : ℕ
default_delivery_age = 60

-- The age is given in milliseconds, and kept in whole seconds.
unfoldable pub with_queue_limits : ℕ → ℕ → AlertSender
with_queue_limits queue_depth max_age = record {
  alerts = [];
  state = [];
  queue = [];
  max_age_secs = max_age / 1_000;
  queue_depth = queue_depth;
}

-- A new depth makes a new channel; the old worker goes on with what is in the old one.
unfoldable pub update_queue_limits : ℕ → ℕ → AlertSender → AlertSender
update_queue_limits queue_depth max_age s =
    let aged = record s { max_age_secs = max_age / 1_000 } in
    if queue_depth == s.queue_depth
    then aged
    else record aged { queue = []; queue_depth = queue_depth }

entries_of : Map AlertConfig → List AlertEntry
entries_of [] = []
entries_of ((name, config) ∷ rest) = record { name = name; config = config } ∷ entries_of rest

unfoldable pub update_alerts : Map AlertConfig → AlertSender → AlertSender
unfolding entries_of
update_alerts alerts s = record s { alerts = entries_of alerts }

unfoldable pub check_status : AlertSender → String → Option CheckStatus
check_status s check = lookup check s.state

-- `try_send`
try_send : DeliveryJob → AlertSender → Bool × AlertSender
try_send job s =
    if ltb (length s.queue) s.queue_depth
    then (true, record s { queue = s.queue ++ job ∷ [] })
    else (false, s)

-- The loop over the alerts: one that listens to the check is queued; its name is returned unless
-- the queue is full.
unfoldable pub fire :
    String → CheckStatus → List AlertEntry → AlertSender → List String × AlertSender
unfolding try_send
fire check status [] s = ([], s)
fire check status (entry ∷ rest) s =
    if contains entry.config.on_check check
    then (let (sent, s') = try_send (record { alert = entry; check = check; status = status }) s in
        let (fired, s'') = fire check status rest s' in
        (if sent then entry.name ∷ fired else fired, s''))
    else fire check status rest s

unfoldable pub handle_check_event : String → CheckStatus → AlertSender → List String × AlertSender
unfolding fire
handle_check_event check status s =
    let prev = lookup check s.state in
    let known = record s { state = insert check status s.state } in
    if was prev status
    then ([], s)
    else if is_up status && not (is_some prev)
    then ([], known)
    else fire check status s.alerts known
