-- ===== src/Logs/Examples.antt =====
-- The log store at three lines.
use vigil_rs.Prelude.{ℕ, ◌≡◌, refl, true, List, [], ◌∷◌, lookup, insert, is_some}
use vigil_rs.Logs.Store.{
  LogEntry, stdout, LogStore, new_store, push, push_to, buffer_for, insert_buffer, fresh_slot,
  push_line, new_buffer,
}
use vigil_rs.Logs.Ring.{buffer_of, push_all, push_all-lines, kept, lines_of}
use vigil_rs.Logs.Race.{Action, begins, goes_on, Log, act_all, act, move, go_on}
use vigil_rs.Logs.Interleaved.{act_all-lines}

abbrev line : ℕ → LogEntry
line n = record { timestamp = n; service = "app"; stream = stdout; message = "line" }

push_all-lines_example :
    buffer_of "app" (push_all (line 1 ∷ line 2 ∷ line 3 ∷ []) (new_store 2))
    ≡ record { inner = line 2 ∷ line 3 ∷ []; capacity = 2 }
push_all-lines_example = push_all-lines 2 (line 1 ∷ line 2 ∷ line 3 ∷ []) "app"

-- Two pushes begin, and the second is at its end first.
abbrev crossing : List Action
crossing = begins (line 2) ∷ begins (line 3) ∷ goes_on 0 ∷ goes_on 1 ∷ goes_on 1 ∷ goes_on 0 ∷ []

known : is_some (lookup "app" (push_all (line 1 ∷ []) (new_store 2)).buffers) ≡ true
unfolding push_all push push_to buffer_for insert_buffer fresh_slot lookup insert new_store
known = refl

abbrev after_crossing : LogStore → Log
after_crossing s = act_all crossing (record { store = s; in_flight = []; pushed = [] })

act_all-lines_example :
    buffer_of "app" (after_crossing (push_all (line 1 ∷ []) (new_store 2))).store
    ≡ kept 2
        (lines_of "app" (line 1 ∷ (after_crossing (push_all (line 1 ∷ []) (new_store 2))).pushed))
act_all-lines_example = act_all-lines 2 (line 1 ∷ []) "app" crossing known

crossing_test :
    buffer_of "app" (after_crossing (push_all (line 1 ∷ []) (new_store 2))).store
    ≡ record { inner = line 3 ∷ line 2 ∷ []; capacity = 2 }
unfolding buffer_of act_all act move go_on push_all push push_to push_line buffer_for insert_buffer
    fresh_slot lookup insert new_store new_buffer
crossing_test = refl

-- The first two pushes of a service both find no buffer: the line of the second is lost.
abbrev both_first : List Action
both_first =
    begins (line 1)
    ∷ begins (line 2)
    ∷ goes_on 0
    ∷ goes_on 1
    ∷ goes_on 1
    ∷ goes_on 1
    ∷ goes_on 0
    ∷ goes_on 0
    ∷ []

lost_line_test :
    buffer_of "app"
      (act_all both_first (record { store = new_store 2; in_flight = []; pushed = [] })).store
    ≡ record { inner = line 1 ∷ []; capacity = 2 }
unfolding buffer_of act_all act move go_on push_to push_line insert_buffer fresh_slot lookup insert
    new_store new_buffer
lost_line_test = refl
