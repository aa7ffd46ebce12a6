-- ===== src/Logs/Interleaved.antt =====
-- The buffer of a service while pushes of crates/vigild/src/logs/store.rs interleave.
use mathlib.Core.List.{append-nil, append_assoc}
use vigil_rs.Prelude.{
  ℕ, zero, suc, ◌≡◌, Bool, true, false, not, ◌||◌, ◌==◌, some, List, [], ◌∷◌, ◌++◌, String, lookup,
  insert, lookup-insert, eq_iff, str_eq, is_some, Bool-cases, Option-cases, inl, inr, All, arith,
}
use vigil_rs.Logs.Store.{
  LogEntry, Slot, LogStore, insert_buffer, fresh_slot, push_line, push_to, new_store,
}
use vigil_rs.Logs.Ring.{
  push_all, lines_of, lines_of-append, kept, buffer_of, push_line-kept, push_all-lines,
}
use vigil_rs.Logs.Race.{
  Phase, looking, creating, holding, Push, Moved, go_on, move, Action, begins, goes_on, Log, act,
  act_all,
}

-- A push of the service has not looked yet, or holds the buffer of this number.
abbrev pub holds : ℕ → Phase → Bool
holds n looking = true
holds n creating = false
holds n (holding m) = m == n

module _ (capacity : ℕ) (service : String) (n : ℕ) where
  abbrev pub IsSound : Push → Type 0
  IsSound p = (not (str_eq p.entry.service service) || holds n p.phase) ≡ true

  -- The service has its buffer of this number, with the last of these lines.
  abbrev pub IsKept : List LogEntry → LogStore → Type 0
  IsKept lines s =
      lookup service s.buffers
      ≡ some (record { number = n; buffer = kept capacity (lines_of service lines) })

  record IsMoved (lines : List LogEntry) (m : Moved) : Type 0 where
    kept_so : IsKept (lines ++ m.pushed) m.store
    sound : All IsSound m.in_flight

  no_more : (lines : List LogEntry) (s : LogStore) → IsKept lines s → IsKept (lines ++ []) s
  no_more lines s h = rw (append-nil lines) h

  -- What another service does to its place.
  insert-IsKept :
      (lines : List LogEntry) (other : String) (slot : Slot) (s : LogStore)
      → str_eq other service ≡ false
      → IsKept lines s
      → IsKept lines (record s { buffers = insert other slot s.buffers })
  insert-IsKept lines other slot s e h =
      ground (arith, e, h, lookup-insert other service slot s.buffers)

  lines_of-other :
      (lines : List LogEntry) (e : LogEntry)
      → str_eq e.service service ≡ false
      → lines_of service (lines ++ e ∷ []) ≡ lines_of service lines
  lines_of-other lines e other = ground (arith, other, lines_of-append service lines e)

  push_to-other :
      (lines : List LogEntry) (number : ℕ) (e : LogEntry) (s : LogStore)
      → str_eq e.service service ≡ false
      → IsKept lines s
      → IsKept (lines ++ e ∷ []) (push_to number e s)
  unfolding push_to
  push_to-other lines number e s other h =
      rw (lines_of-other lines e other) (elim (Option-cases (lookup e.service s.buffers)) [
        | inl missing ↦ ground (arith, missing, h)
        | inr (slot, found) ↦
            let slot' : Slot = record slot { buffer = push_line e slot.buffer } in
            ground (arith, found, h, other, lookup-insert e.service service slot' s.buffers)
      ])

  push_to-own :
      (lines : List LogEntry) (e : LogEntry) (s : LogStore)
      → e.service ≡ service
      → IsKept lines s
      → IsKept (lines ++ e ∷ []) (push_to n e s)
  unfolding push_to
  push_to-own lines e s same h =
      let slot' : Slot = record {
        number = n;
        buffer = push_line e (kept capacity (lines_of service lines));
      } in
      let own : lookup e.service s.buffers
          ≡ some (record { number = n; buffer = kept capacity (lines_of service lines) }) =
        rw same h in
      ground (
        arith,
        own,
        same,
        eq_iff e.service service,
        lookup-insert e.service service slot' s.buffers,
        lines_of-append service lines e,
        push_line-kept capacity (lines_of service lines) e,
      )

  push_to-IsKept :
      (lines : List LogEntry) (m : ℕ) (e : LogEntry) (s : LogStore)
      → (not (str_eq e.service service) || m == n) ≡ true
      → IsKept lines s
      → IsKept (lines ++ e ∷ []) (push_to m e s)
  push_to-IsKept lines m e s sound h = elim (Bool-cases (str_eq e.service service)) [
    | inr other ↦ push_to-other lines m e s other h
    | inl own ↦
        let same : m ≡ n = ground (arith, own, sound) in
        rw same (push_to-own lines e s (ground (arith, own, eq_iff e.service service)) h)
  ]

  go_on-IsMoved :
      (lines : List LogEntry) (p : Push) (s : LogStore)
      → IsSound p
      → IsKept lines s
      → IsMoved lines (go_on p.entry p.phase s)
  unfolding go_on insert_buffer
  go_on-IsMoved lines p s sound h = go p.phase sound
    where
      e : LogEntry
      e = p.entry

      go :
          (phase : Phase)
          → (not (str_eq e.service service) || holds n phase) ≡ true
          → IsMoved lines (go_on e phase s)
      go looking sound = elim (Option-cases (lookup e.service s.buffers)) [
        | inl missing ↦
            rw (go_on, missing)
              (record {
                kept_so = no_more lines s h;
                sound = (ground (arith, missing, h, eq_iff e.service service), tt);
              })
        | inr (slot, found) ↦
            rw (go_on, found)
              (record {
                kept_so = no_more lines s h;
                sound = (ground (arith, found, h, eq_iff e.service service), tt);
              })
      ]
      go creating sound =
          let other : str_eq e.service service ≡ false = ground (arith, sound) in
          record {
            kept_so =
                no_more lines (insert_buffer e.service s).1
                  (insert-IsKept lines e.service (fresh_slot e.service s) s other h);
            sound = (ground (arith, other), tt);
          }
      go (holding m) sound = record { kept_so = push_to-IsKept lines m e s sound h; sound = tt }

  All-concat : (ps qs : List Push) → All IsSound ps → All IsSound qs → All IsSound (ps ++ qs)
  All-concat [] qs h k = k
  All-concat (p ∷ ps) qs h k = (h.0, All-concat ps qs h.1 k)

  move-IsMoved :
      (lines : List LogEntry) (k : ℕ) (ps : List Push) (s : LogStore)
      → All IsSound ps
      → IsKept lines s
      → IsMoved lines (move k ps s)
  unfolding move
  move-IsMoved lines k [] s sound h = record { kept_so = no_more lines s h; sound = tt }
  move-IsMoved lines zero (p ∷ rest) s sound h =
      let m = go_on-IsMoved lines p s sound.0 h in
      record { kept_so = m.kept_so; sound = All-concat _ rest m.sound sound.1 }
  move-IsMoved lines (suc k) (p ∷ rest) s sound h =
      let m = move-IsMoved lines k rest s sound.1 h in
      record { kept_so = m.kept_so; sound = (sound.0, m.sound) }

  -- What the steps keep, with the lines pushed before them.
  record IsOrderly (earlier : List LogEntry) (l : Log) : Type 0 where
    kept_so : IsKept (earlier ++ l.pushed) l.store
    sound : All IsSound l.in_flight

  act-IsOrderly :
      (earlier : List LogEntry) (a : Action) (l : Log)
      → IsOrderly earlier l
      → IsOrderly earlier (act a l)
  unfolding act
  act-IsOrderly earlier (begins e) l h = record {
    kept_so = h.kept_so;
    sound = All-concat l.in_flight _ h.sound (ground arith, tt);
  }
  act-IsOrderly earlier (goes_on k) l h =
      let m = move-IsMoved (earlier ++ l.pushed) k l.in_flight l.store h.sound h.kept_so in
      record { kept_so = rw⁻¹ (append_assoc earlier l.pushed _) m.kept_so; sound = m.sound }

  act_all-IsOrderly :
      (earlier : List LogEntry) (actions : List Action) (l : Log)
      → IsOrderly earlier l
      → IsOrderly earlier (act_all actions l)
  unfolding act_all
  act_all-IsOrderly earlier [] l h = h
  act_all-IsOrderly earlier (a ∷ rest) l h =
      act_all-IsOrderly earlier rest (act a l) (act-IsOrderly earlier a l h)

-- Once a service has a buffer, pushes of any services may interleave in any order, each between the
-- locks that it takes: the buffer of the service holds the last of its lines, those before and those
-- since in the order in which they were pushed, as many as the capacity says, but one where it says
-- zero. What was there before came by pushes one after the other.
pub act_all-lines :
    (capacity : ℕ) (earlier : List LogEntry) (service : String) (actions : List Action)
    → is_some (lookup service (push_all earlier (new_store capacity)).buffers) ≡ true
    → let l : Log =
        act_all actions
          (record { store = push_all earlier (new_store capacity); in_flight = []; pushed = [] }) in
      buffer_of service l.store ≡ kept capacity (lines_of service (earlier ++ l.pushed))
unfolding buffer_of
act_all-lines capacity earlier service actions known =
    let s = push_all earlier (new_store capacity) in
    elim (Option-cases (lookup service s.buffers)) [
      | inl missing ↦ absurd (ground (arith, missing, known))
      | inr (slot, found) ↦
          let first : IsKept capacity service slot.number (earlier ++ []) s =
            no_more capacity service slot.number earlier s
              (ground (arith, found, push_all-lines capacity earlier service)) in
          let last =
            (act_all-IsOrderly capacity service slot.number earlier actions
              (record { store = s; in_flight = []; pushed = [] })
              (record { kept_so = first; sound = tt })).kept_so in
          ground (arith, last)
    ]
