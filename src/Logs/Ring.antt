-- ===== src/Logs/Ring.antt =====
-- A buffer keeps the last lines of its service.
use vigil_rs.Prelude.{
  ℕ, zero, suc, ◌-◌, ◌≤◌, ◌<◌, ◌≡◌, refl, sym, ◌∙◌, ap, List, [], ◌∷◌, ◌++◌, String, lookup,
  lookup-insert, insert, none, some, Option-cases, eq_iff, str_eq, length, length-append,
  length-drop, Bool-cases, inl, inr, drop, leb, max, arith, if◌then◌else◌,
}
use vigil_rs.Logs.Store.{
  LogEntry, Buffer, Slot, LogStore, new_buffer, push_line, push, push_to, buffer_for, insert_buffer,
  fresh_slot, new_store,
}

unfoldable pub push_all : List LogEntry → LogStore → LogStore
push_all [] s = s
push_all (e ∷ later) s = push_all later (push e s)

-- the lines of one service
abbrev pub lines_of : String → List LogEntry → List LogEntry
lines_of service [] = []
lines_of service (e ∷ rest) =
    if str_eq e.service service then e ∷ lines_of service rest else lines_of service rest

-- the last lines of a list
abbrev pub last : ℕ → List LogEntry → List LogEntry
last n lines = drop (length lines - n) lines

drop-append-one :
    (n : ℕ) (lines : List LogEntry) (e : LogEntry)
    → n ≤ length lines
    → drop n (lines ++ e ∷ []) ≡ drop n lines ++ e ∷ []
drop-append-one zero lines e h = refl
drop-append-one (suc n) [] e h = absurd (omega (arith, h))
drop-append-one (suc n) (x ∷ lines) e h = drop-append-one n lines e (omega (arith, h))

drop-drop-one : (n : ℕ) (lines : List LogEntry) → drop 1 (drop n lines) ≡ drop (suc n) lines
drop-drop-one zero [] = refl
drop-drop-one zero (x ∷ lines) = refl
drop-drop-one (suc n) [] = refl
drop-drop-one (suc n) (x ∷ lines) = drop-drop-one n lines

-- the buffer of a service as a follower finds it, a new one where there is none
unfoldable pub buffer_of : String → LogStore → Buffer
unfolding new_buffer
buffer_of service s = elim (lookup service s.buffers) [
  | none ↦ new_buffer s.buffer_capacity
  | some slot ↦ slot.buffer
]

abbrev pub kept : ℕ → List LogEntry → Buffer
kept capacity lines = record { inner = last (max capacity 1) lines; capacity = capacity }

-- The buffer is full.
push-full :
    (n : ℕ) (lines : List LogEntry) (e : LogEntry)
    → 1 ≤ n
    → n ≤ length lines
    → drop 1 (last n lines) ++ e ∷ [] ≡ last n (lines ++ e ∷ [])
push-full n lines e one full =
    let longer = length-append lines (e ∷ []) in
    let one_off : length (lines ++ e ∷ []) - n ≡ suc (length lines - n) =
      omega (arith, longer, full) in
    ap (λ kept. kept ++ e ∷ []) (drop-drop-one (length lines - n) lines)
    ∙ sym (drop-append-one (suc (length lines - n)) lines e (omega (arith, one, full)))
    ∙ ap (λ k. drop k (lines ++ e ∷ [])) (sym one_off)

push-free :
    (n : ℕ) (lines : List LogEntry) (e : LogEntry)
    → length lines < n
    → last n lines ++ e ∷ [] ≡ last n (lines ++ e ∷ [])
push-free n lines e free =
    let longer = length-append lines (e ∷ []) in
    let none_off : length lines - n ≡ 0 = omega (arith, free) in
    let none_off' : length (lines ++ e ∷ []) - n ≡ 0 = omega (arith, longer, free) in
    ap (λ k. drop k lines ++ e ∷ []) none_off ∙ ap (λ k. drop k (lines ++ e ∷ [])) (sym none_off')

-- Dropping one line of none changes nothing; this is a buffer of capacity 0 at its first line.
drop_none :
    (n : ℕ) (lines : List LogEntry) → length lines ≡ 0 → drop 1 (drop n lines) ≡ drop n lines
drop_none zero [] h = refl
drop_none (suc n) [] h = refl
drop_none n (x ∷ lines) h = absurd (omega (arith, h))

kept_of :
    (capacity : ℕ) (lines : List LogEntry) (e : LogEntry)
    → (if leb capacity (length (last (max capacity 1) lines))
          then drop 1 (last (max capacity 1) lines)
          else last (max capacity 1) lines)
        ++ e ∷ []
      ≡ last (max capacity 1) (lines ++ e ∷ [])
kept_of capacity lines e =
    let m = max capacity 1 in
    let size = length-drop (length lines - m) lines in
    elim (Bool-cases (leb capacity (length (last m lines)))) [
      | inr free ↦ rw free (push-free m lines e (ground (arith, free, size)))
      | inl full ↦ rw full (elim (Bool-cases (leb m (length lines))) [
        | inl enough ↦ push-full m lines e (omega arith) (ground (arith, enough))
        | inr fewer ↦
            ap (λ kept. kept ++ e ∷ [])
              (drop_none (length lines - m) lines (ground (arith, full, fewer, size)))
            ∙ push-free m lines e (ground (arith, fewer))
      ])
    ]

pub push_line-kept :
    (capacity : ℕ) (lines : List LogEntry) (e : LogEntry)
    → push_line e (kept capacity lines) ≡ kept capacity (lines ++ e ∷ [])
unfolding push_line
push_line-kept capacity lines e =
    ap (λ inner. record { inner = inner; capacity = capacity }) (kept_of capacity lines e)

pub lines_of-append :
    (service : String) (lines : List LogEntry) (e : LogEntry)
    → lines_of service (lines ++ e ∷ []) ≡ (
        if str_eq e.service service
        then lines_of service lines ++ e ∷ []
        else lines_of service lines)
lines_of-append service [] e = ground arith
lines_of-append service (x ∷ lines) e = ground (arith, lines_of-append service lines e)

-- Every service's buffer holds the last lines of the history.
record IsLogged (capacity : ℕ) (history : List LogEntry) (s : LogStore) : Type 0 where
  limit : s.buffer_capacity ≡ capacity
  lines : (service : String) → buffer_of service s ≡ kept capacity (lines_of service history)

-- After a push: the line stands in the buffer of its service, and the other buffers are as they were.
push-buffer_of :
    (e : LogEntry) (s : LogStore) (service : String)
    → ((push e s).buffer_capacity ≡ s.buffer_capacity)
      × (buffer_of service (push e s) ≡ (
          if str_eq e.service service
          then push_line e (buffer_of e.service s)
          else buffer_of service s))
unfolding push push_to buffer_for insert_buffer fresh_slot buffer_of lookup
push-buffer_of e s service = elim (Option-cases (lookup e.service s.buffers)) [
  | inr (slot, found) ↦
      let slot' : Slot = record slot { buffer = push_line e slot.buffer } in
      let placed = lookup-insert e.service service slot' s.buffers in
      (ground (arith, found), ground (arith, found, placed, eq_iff e.service service))
  | inl missing ↦
      let slot : Slot = record { number = 0; buffer = new_buffer s.buffer_capacity } in
      let slot' : Slot = record slot { buffer = push_line e slot.buffer } in
      let made = insert e.service slot s.buffers in
      let there = lookup-insert e.service e.service slot s.buffers in
      let first = lookup-insert e.service service slot s.buffers in
      let placed = lookup-insert e.service service slot' made in
      (
        ground (arith, missing, there, eq_iff e.service e.service),
        ground (
          arith,
          missing,
          there,
          first,
          placed,
          eq_iff e.service e.service,
          eq_iff e.service service,
        ),
      )
]

push-IsLogged :
    (capacity : ℕ) (history : List LogEntry) (e : LogEntry) (s : LogStore)
    → IsLogged capacity history s
    → IsLogged capacity (history ++ e ∷ []) (push e s)
push-IsLogged capacity history e s h = record {
  limit = (push-buffer_of e s e.service).0 ∙ h.limit;
  lines = λ service. ground (
    arith,
    (push-buffer_of e s service).1,
    h.lines service,
    h.lines e.service,
    push_line-kept capacity (lines_of e.service history) e,
    lines_of-append service history e,
    eq_iff e.service service,
  );
}

drop_nothing : (n : ℕ) → drop {A = LogEntry} n [] ≡ []
drop_nothing zero = refl
drop_nothing (suc n) = refl

append_nil : (lines : List LogEntry) → lines ++ [] ≡ lines
append_nil [] = refl
append_nil (x ∷ lines) = ap (λ rest. x ∷ rest) (append_nil lines)

append_one :
    (lines : List LogEntry) (e : LogEntry) (later : List LogEntry)
    → lines ++ e ∷ later ≡ (lines ++ e ∷ []) ++ later
append_one [] e later = refl
append_one (x ∷ lines) e later = ap (λ rest. x ∷ rest) (append_one lines e later)

push_all-IsLogged :
    (capacity : ℕ) (history later : List LogEntry) (s : LogStore)
    → IsLogged capacity history s
    → IsLogged capacity (history ++ later) (push_all later s)
unfolding push_all
push_all-IsLogged capacity history [] s h = rw (append_nil history) h
push_all-IsLogged capacity history (e ∷ later) s h = rw (append_one history e later) (
    push_all-IsLogged capacity (history ++ e ∷ []) later (push e s)
      (push-IsLogged capacity history e s h))

new_store-IsLogged : (capacity : ℕ) → IsLogged capacity [] (new_store capacity)
unfolding new_store buffer_of new_buffer lookup
new_store-IsLogged capacity = record {
  limit = refl;
  lines = λ service.
      ap (λ inner. record { inner = inner; capacity = capacity })
        (sym (drop_nothing (0 - max capacity 1)));
}

-- After any lines are pushed into a new store one after the other, each push at its end before the next
-- begins, the buffer of each service holds, in order, the last
-- lines of that service and no others, as many as the capacity says, but one where it says zero.
pub push_all-lines :
    (capacity : ℕ) (lines : List LogEntry) (service : String)
    → buffer_of service (push_all lines (new_store capacity))
      ≡ kept capacity (lines_of service lines)
push_all-lines capacity lines service =
    (push_all-IsLogged capacity [] lines (new_store capacity) (new_store-IsLogged capacity)).lines
      service
