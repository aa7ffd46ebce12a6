-- ===== src/Alert/History.antt =====
-- The sender against the history of the events: it notifies exactly the changes.
use vigil_rs.Prelude.{
  suc, ◌+◌, ◌*◌, ◌≤◌, Bool, true, false, ◌≡◌, refl, ◌∙◌, ap, Option, none, some, List, [], ◌∷◌,
  ◌++◌, String, lookup, insert, lookup-insert, contains, length, length-append, str_eq, eq_iff,
  arith, if◌then◌else◌, Bool-cases, inl, inr, ltb,
}
use vigil_rs.Alert.Status.{CheckStatus, up, down}
use vigil_rs.Alert.Sender.{AlertEntry, DeliveryJob, AlertSender, fire, handle_check_event}

pub record CheckEvent : Type 0 where
  pub check : String
  pub status : CheckStatus

-- The events of a history, newest first: the last status of a check.
abbrev pub last_status : String → List CheckEvent → Option CheckStatus
last_status check [] = none
last_status check (e ∷ before) =
    if str_eq e.check check then some e.status else last_status check before

-- A notification is due: the status differs from the last one, and a check that was never heard of
-- counts as up.
abbrev pub is_change : Option CheckStatus → CheckStatus → Bool
is_change none down = true
is_change none up = false
is_change (some up) down = true
is_change (some down) up = true
is_change (some _) _ = false

-- the alerts that listen to a check
abbrev pub listeners : String → List AlertEntry → List String
listeners check [] = []
listeners check (entry ∷ rest) =
    if contains entry.config.on_check check
    then entry.name ∷ listeners check rest
    else listeners check rest

abbrev pub due : List AlertEntry → List CheckEvent → CheckEvent → List String
due alerts before e =
    if is_change (last_status e.check before) e.status then listeners e.check alerts else []

-- the names that each event fires, in order
unfoldable pub handle_all : List CheckEvent → AlertSender → List (List String) × AlertSender
handle_all [] s = ([], s)
handle_all (e ∷ later) s =
    let (fired, s') = handle_check_event e.check e.status s in
    let (rest, s'') = handle_all later s' in (fired ∷ rest, s'')

-- what the history asks for
unfoldable pub due_all : List AlertEntry → List CheckEvent → List CheckEvent → List (List String)
due_all alerts before [] = []
due_all alerts before (e ∷ later) = due alerts before e ∷ due_all alerts (e ∷ before) later

-- With room in the queue every listener fires.
fire-listeners :
    (check : String) (status : CheckStatus) (alerts : List AlertEntry) (s : AlertSender)
    → length s.queue + length alerts ≤ s.queue_depth
    → let r = fire check status alerts s in
      (r.0 ≡ listeners check alerts)
      × (r.1.state ≡ s.state)
      × (r.1.alerts ≡ s.alerts)
      × (r.1.queue_depth ≡ s.queue_depth)
      × (length r.1.queue ≤ length s.queue + length alerts)
unfolding fire
fire-listeners check status [] s h = (refl, refl, refl, refl, omega arith)
fire-listeners check status (entry ∷ rest) s h =
    elim (Bool-cases (contains entry.config.on_check check)) [
      | inr deaf ↦ rw deaf (
          let ih = fire-listeners check status rest s (omega arith) in
          (ih.0, ih.1, ih.2, ih.3, omega (arith, ih.4)))
      | inl listens ↦
          let job : DeliveryJob = record { alert = entry; check = check; status = status } in
          let queued : AlertSender = record s { queue = s.queue ++ job ∷ [] } in
          let longer = length-append s.queue (job ∷ []) in
          let ih = fire-listeners check status rest queued (omega (arith, longer)) in
          let free : ltb (length s.queue) s.queue_depth ≡ true = ground arith in
          rw (listens, free)
            (ap (λ names. entry.name ∷ names) ih.0, ih.1, ih.2, ih.3, omega (arith, longer, ih.4))
    ]

-- One event: what it fires, and what the sender remembers.
record IsHandled (before : List CheckEvent) (e : CheckEvent) (s : AlertSender)
    (r : List String × AlertSender) : Type 0 where
  fired : r.0 ≡ due s.alerts before e
  alerts : r.1.alerts ≡ s.alerts
  depth : r.1.queue_depth ≡ s.queue_depth
  state : (check : String) → lookup check r.1.state ≡ last_status check (e ∷ before)
  queue : length r.1.queue ≤ length s.queue + length s.alerts

handle_check_event-IsHandled :
    (before : List CheckEvent) (e : CheckEvent) (s : AlertSender)
    → ((check : String) → lookup check s.state ≡ last_status check before)
    → length s.queue + length s.alerts ≤ s.queue_depth
    → IsHandled before e s (handle_check_event e.check e.status s)
unfolding handle_check_event
handle_check_event-IsHandled before e s known room =
    let after : AlertSender = record s { state = insert e.check e.status s.state } in
    let f = fire-listeners e.check e.status s.alerts after room in
    record {
      fired = ground (arith, known e.check, f.0);
      alerts = ground (arith, known e.check, f.2);
      depth = ground (arith, known e.check, f.3);
      state = λ check. ground (
        arith,
        f.1,
        known e.check,
        known check,
        lookup-insert e.check check e.status s.state,
        eq_iff e.check check,
      );
      queue = ground (arith, f.4);
    }

room_for_one :
    (s : AlertSender) (later : List CheckEvent)
    → length s.queue + suc (length later) * length s.alerts ≤ s.queue_depth
    → length s.queue + length s.alerts ≤ s.queue_depth
room_for_one s later room = grind arith

room_for_rest :
    (s : AlertSender) (before later : List CheckEvent) {e : CheckEvent}
    {r : List String × AlertSender}
    → IsHandled before e s r
    → length s.queue + suc (length later) * length s.alerts ≤ s.queue_depth
    → length r.1.queue + length later * length r.1.alerts ≤ r.1.queue_depth
room_for_rest s before later h room = rw (h.alerts, h.depth) (grind (arith, h.queue))

-- A sender that remembers the history `before` and whose queue has room for every alert at every
-- event that follows fires, at each event, exactly the listeners that the history calls for: all that
-- listen to the check, if the status is a change from the last one known, or down if none is
-- known, and none otherwise.
pub handle_all-due :
    (before events : List CheckEvent) (s : AlertSender)
    → ((check : String) → lookup check s.state ≡ last_status check before)
    → length s.queue + length events * length s.alerts ≤ s.queue_depth
    → (handle_all events s).0 ≡ due_all s.alerts before events
unfolding handle_all due_all
handle_all-due before [] s known room = refl
handle_all-due before (e ∷ later) s known room =
    let one = handle_check_event-IsHandled before e s known (room_for_one s later room) in
    let next = (handle_check_event e.check e.status s).1 in
    let ih =
      handle_all-due (e ∷ before) later next one.state (room_for_rest s before later one room) in
    let rest = ih ∙ ap (λ alerts. due_all alerts (e ∷ before) later) one.alerts in
    ground (arith, one.fired, rest)
