-- ===== src/Relay/Order.antt =====
-- The lines of a stream go on in the order of their times, each time once.
use vigil_rs.Prelude.{
  before, before_step, before_asym, before_self, ◌≡◌, refl, Bool, true, false, not, ◌&&◌, List, [],
  ◌∷◌, ◌++◌, Text, if◌then◌else◌, arith, all,
}
use vigil_rs.Relay.Filter.{LineFilter, allow}
use vigil_rs.Relay.Stream.{
  LogEntry, not_after, parts_of, Origin, entry_of, Reader, new_reader, accept, read_parts,
  read_line, Next, line, eof, error, stream_pod,
}

-- each before those that follow
abbrev pub is_increasing : List LogEntry → Bool
is_increasing [] = true
is_increasing (e ∷ rest) = all (λ f. before e.timestamp f.timestamp) rest && is_increasing rest

all_until : Text → List LogEntry → Bool
all_until ts entries = all (λ e. not_after e.timestamp ts) entries

all-snoc :
    (p : LogEntry → Bool) (entries : List LogEntry) (e : LogEntry)
    → all p entries ≡ true
    → p e ≡ true
    → all p (entries ++ e ∷ []) ≡ true
all-snoc p [] e h q = ground arith
all-snoc p (x ∷ entries) e h q = ground (arith, all-snoc p entries e)

increasing-snoc :
    (last : Text) (entries : List LogEntry) (e : LogEntry)
    → is_increasing entries ≡ true
    → all_until last entries ≡ true
    → before last e.timestamp ≡ true
    → is_increasing (entries ++ e ∷ []) ≡ true
unfolding all_until not_after
increasing-snoc last [] e i u b = refl
increasing-snoc last (x ∷ entries) e i u b =
    let head : all (λ f. before x.timestamp f.timestamp) entries ≡ true = ground arith in
    let rest : is_increasing entries ≡ true = ground arith in
    let bounds : all_until last entries ≡ true = ground arith in
    let earlier : before last x.timestamp ≡ false = ground arith in
    ground (
      arith,
      increasing-snoc last entries e rest bounds b,
      all-snoc (λ f. before x.timestamp f.timestamp) entries e head
          (before_step last x.timestamp e.timestamp earlier b),
    )

until-later :
    (last ts : Text) (entries : List LogEntry)
    → before last ts ≡ true
    → all_until last entries ≡ true
    → all_until ts entries ≡ true
unfolding all_until not_after
until-later last ts [] b u = refl
until-later last ts (x ∷ entries) b u = ground (
  arith,
  until-later last ts entries,
  before_step last x.timestamp ts,
  before_asym x.timestamp ts,
)

record IsOrdered (filter : LineFilter) (r : Reader) : Type 0 where
  increasing : is_increasing r.sent ≡ true
  until : all_until r.last_ts r.sent ≡ true
  allowed : all (λ e. allow filter e.message) r.sent ≡ true

entry-IsOrdered :
    (o : Origin) (filter : LineFilter) (ts msg : Text) (r : Reader)
    → before r.last_ts ts ≡ true
    → allow filter msg ≡ true
    → IsOrdered filter r
    → IsOrdered filter (record { last_ts = ts; sent = r.sent ++ entry_of o ts msg ∷ [] })
unfolding entry_of
entry-IsOrdered o filter ts msg r later allowed h = record {
  increasing = increasing-snoc r.last_ts r.sent (entry_of o ts msg) h.increasing h.until later;
  until =
      unfold all_until not_after in
      all-snoc (λ e. not_after e.timestamp ts) r.sent (entry_of o ts msg)
        (until-later r.last_ts ts r.sent later h.until) (rw (before_self ts) refl);
  allowed = all-snoc (λ e. allow filter e.message) r.sent (entry_of o ts msg) h.allowed allowed;
}

accept-IsOrdered :
    (o : Origin) (filter : LineFilter) (ts msg : Text) (has_room : Bool) (r : Reader)
    → before r.last_ts ts ≡ true
    → allow filter msg ≡ true
    → IsOrdered filter r
    → IsOrdered filter (accept o ts msg has_room r)
unfolding accept
accept-IsOrdered o filter ts msg true r later allowed h =
    entry-IsOrdered o filter ts msg r later allowed h
accept-IsOrdered o filter ts msg false r later allowed h = record {
  increasing = h.increasing;
  until = until-later r.last_ts ts r.sent later h.until;
  allowed = h.allowed;
}

read_parts-IsOrdered :
    (o : Origin) (filter : LineFilter) (parts : Text × Text) (has_room : Bool) (r : Reader)
    → IsOrdered filter r
    → IsOrdered filter (read_parts o filter parts has_room r)
unfolding read_parts not_after
read_parts-IsOrdered o filter (ts, msg) has_room r h =
    go (before r.last_ts ts) refl (allow filter msg) refl
  where
    go :
        (later : Bool)
        → before r.last_ts ts ≡ later
        → (allowed : Bool) → allow filter msg ≡ allowed
        → IsOrdered filter
            (if not later then r else if not allowed then r else accept o ts msg has_room r)
    go false p allowed q = h
    go true p false q = h
    go true p true q = accept-IsOrdered o filter ts msg has_room r p q h

stream_pod-IsOrdered :
    (o : Origin) (filter : LineFilter) (lines : List Next) (r : Reader)
    → IsOrdered filter r
    → IsOrdered filter (stream_pod o filter lines r)
unfolding stream_pod
stream_pod-IsOrdered o filter [] r h = h
stream_pod-IsOrdered o filter (line l has_room ∷ rest) r h =
    stream_pod-IsOrdered o filter rest (read_line o filter l has_room r)
      (unfold read_line in read_parts-IsOrdered o filter (parts_of l) has_room r h)
stream_pod-IsOrdered o filter (eof ∷ rest) r h = h
stream_pod-IsOrdered o filter (error ∷ rest) r h = h

-- Whatever the API server sends, twice or out of order, the entries that a stream sends have strictly
-- increasing timestamps, each before all that follow, and the filter allows the message of each.
pub stream_pod-is_increasing :
    (o : Origin) (filter : LineFilter) (lines : List Next)
    → let sent : List LogEntry = (stream_pod o filter lines new_reader).sent in
      (is_increasing sent ≡ true) × (all (λ e. allow filter e.message) sent ≡ true)
unfolding new_reader
stream_pod-is_increasing o filter lines =
    let h =
      stream_pod-IsOrdered o filter lines new_reader
        (record { increasing = refl; until = unfold all_until in refl; allowed = refl }) in
    (h.increasing, h.allowed)
