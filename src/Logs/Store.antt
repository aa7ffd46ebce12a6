-- ===== src/Logs/Store.antt =====
-- `Buffer` and `LogStore` of crates/vigild/src/logs/store.rs. The map of buffers has no order of its own:
-- the one here is one it may have. A shared buffer is the name and the number of its place in the
-- map; one that another has replaced there is read by nobody, and what is pushed into it is left out, as
-- is the broadcast to followers. `push` here runs without another task between its parts; Race has
-- those parts in any order.
use vigil_rs.Prelude.{
  ℕ, ◌+◌, ◌-◌, ◌||◌, ◌==◌, Option, none, some, List, [], ◌∷◌, ◌++◌, String, Map, lookup, insert,
  length, drop, contains, is_empty, leb, ltb, if◌then◌else◌,
}

pub data LogStream : Type 0 where
  stdout stderr : LogStream

pub record LogEntry : Type 0 where
  pub timestamp : ℕ
  pub service : String
  pub stream : LogStream
  pub message : String

pub record Buffer : Type 0 where
  pub inner : List LogEntry
  pub capacity : ℕ

abbrev pub default_buffer_capacity : ℕ
default_buffer_capacity = 1_000

unfoldable pub new_buffer : ℕ → Buffer
new_buffer capacity = record { inner = []; capacity = capacity }

-- The oldest line goes if the buffer is full.
unfoldable pub push_line : LogEntry → Buffer → Buffer
push_line entry b =
    let kept = if leb b.capacity (length b.inner) then drop 1 b.inner else b.inner in
    record b { inner = kept ++ entry ∷ [] }

-- a place of the map: the buffer, and how many it has had before
pub record Slot : Type 0 where
  pub number : ℕ
  pub buffer : Buffer

pub record LogStore : Type 0 where
  pub buffers : Map Slot
  pub buffer_capacity : ℕ

unfoldable pub new_store : ℕ → LogStore
new_store buffer_capacity = record { buffers = []; buffer_capacity = buffer_capacity }

abbrev pub next_number : Option Slot → ℕ
next_number none = 0
next_number (some slot) = slot.number + 1

unfoldable pub fresh_slot : String → LogStore → Slot
unfolding new_buffer
fresh_slot service s = record {
  number = next_number (lookup service s.buffers);
  buffer = new_buffer s.buffer_capacity;
}

-- Under the write lock: a new buffer takes the place, whatever is there by now.
unfoldable pub insert_buffer : String → LogStore → ℕ × LogStore
unfolding fresh_slot
insert_buffer service s =
    let slot = fresh_slot service s in
    (slot.number, record s { buffers = insert service slot s.buffers })

-- the buffer found under the read lock, or a new one
unfoldable pub buffer_for : String → LogStore → ℕ × LogStore
unfolding insert_buffer
buffer_for service s = elim (lookup service s.buffers) [
  | none ↦ insert_buffer service s
  | some slot ↦ (slot.number, s)
]

-- `Buffer::push` on the buffer of that number
unfoldable pub push_to : ℕ → LogEntry → LogStore → LogStore
unfolding push_line
push_to number entry s = elim (lookup entry.service s.buffers) [
  | none ↦ s
  | some slot ↦
      if slot.number == number
      then (let slot' : Slot = record slot { buffer = push_line entry slot.buffer } in
          record s { buffers = insert entry.service slot' s.buffers })
      else s
]

unfoldable pub push : LogEntry → LogStore → LogStore
unfolding buffer_for push_to
push entry s = let (number, s') = buffer_for entry.service s in push_to number entry s'

unfoldable pub collect : List String → Map Slot → List LogEntry
collect services [] = []
collect services ((name, slot) ∷ rest) =
    let later = collect services rest in
    if is_empty services || contains services name then slot.buffer.inner ++ later else later

-- `sort_by_key` on the time is stable: an entry goes before those that follow it at the same time.
unfoldable pub insert_entry : LogEntry → List LogEntry → List LogEntry
insert_entry e [] = e ∷ []
insert_entry e (first ∷ rest) =
    if leb e.timestamp first.timestamp then e ∷ first ∷ rest else first ∷ insert_entry e rest

unfoldable pub sort_by_timestamp : List LogEntry → List LogEntry
unfolding insert_entry
sort_by_timestamp [] = []
sort_by_timestamp (e ∷ rest) = insert_entry e (sort_by_timestamp rest)

unfoldable pub tail : List String → ℕ → LogStore → List LogEntry
unfolding collect sort_by_timestamp
tail services n s =
    let all = sort_by_timestamp (collect services s.buffers) in
    if ltb n (length all) then drop (length all - n) all else all
