-- ===== src/Logs/Race.antt =====
-- Pushes at the same time: the parts of `LogStore::push` and `buffer_for` of crates/vigild/src/logs/store.rs between the
-- locks they take, in any order.
use vigil_rs.Prelude.{ℕ, zero, suc, none, some, List, [], ◌∷◌, ◌++◌, lookup}
use vigil_rs.Logs.Store.{LogEntry, LogStore, insert_buffer, push_to}

-- before the read lock, between it and the write lock, with the buffer of a number
pub data Phase : Type 0 where
  looking creating : Phase
  holding : ℕ → Phase

pub record Push : Type 0 where
  pub entry : LogEntry
  pub phase : Phase

-- What a part of a push comes to: the push, unless it is at its end, the store, and the line pushed.
pub record Moved : Type 0 where
  pub in_flight : List Push
  pub store : LogStore
  pub pushed : List LogEntry

unfoldable pub go_on : LogEntry → Phase → LogStore → Moved
unfolding insert_buffer push_to
go_on entry looking s = elim (lookup entry.service s.buffers) [
  | none ↦ record {
    in_flight = record { entry = entry; phase = creating } ∷ [];
    store = s;
    pushed = [];
  }
  | some slot ↦ record {
    in_flight = record { entry = entry; phase = holding slot.number } ∷ [];
    store = s;
    pushed = [];
  }
]
go_on entry creating s =
    let (number, s') = insert_buffer entry.service s in
    record {
      in_flight = record { entry = entry; phase = holding number } ∷ [];
      store = s';
      pushed = [];
    }
go_on entry (holding number) s = record {
  in_flight = [];
  store = push_to number entry s;
  pushed = entry ∷ [];
}

-- The push at this place goes on, if there is one.
unfoldable pub move : ℕ → List Push → LogStore → Moved
unfolding go_on
move k [] s = record { in_flight = []; store = s; pushed = [] }
move zero (p ∷ rest) s =
    let m = go_on p.entry p.phase s in record m { in_flight = m.in_flight ++ rest }
move (suc k) (p ∷ rest) s = let m = move k rest s in record m { in_flight = p ∷ m.in_flight }

pub data Action : Type 0 where
  begins : LogEntry → Action
  goes_on : ℕ → Action

-- the store, the pushes in flight, and the lines pushed, in the order in which they were
pub record Log : Type 0 where
  pub store : LogStore
  pub in_flight : List Push
  pub pushed : List LogEntry

unfoldable pub act : Action → Log → Log
unfolding move
act (begins entry) l = record l {
  in_flight = l.in_flight ++ record { entry = entry; phase = looking } ∷ [];
}
act (goes_on k) l =
    let m = move k l.in_flight l.store in
    record { store = m.store; in_flight = m.in_flight; pushed = l.pushed ++ m.pushed }

unfoldable pub act_all : List Action → Log → Log
unfolding act
act_all [] l = l
act_all (a ∷ rest) l = act_all rest (act a l)
