-- ===== src/Relay/Streams.antt =====
-- A tick opens what is missing: after it, every container of every pod that runs has its stream.
use vigil_rs.Prelude.{
  ℕ, ◌≡◌, refl, Bool, true, not, List, [], ◌∷◌, String, Map, All, all, any, keep, eq_refl, arith,
}
use vigil_rs.Relay.Pods.{
  StreamTask, Settings, Source, stream_params, is_of, has_permit, try_start, start_each, initialize,
  start_pod, restart_each, reconcile, is_live, step, tick,
}

is_open : StreamTask → Bool
is_open t = not t.is_finished

-- the stream of a container of a pod
abbrev pub has_stream : Source → String → String → Bool
has_stream s pod key = any (is_live pod key) s.active

all-keep : (p : StreamTask → Bool) (tasks : List StreamTask) → all p (keep p tasks) ≡ true
all-keep p [] = refl
all-keep p (t ∷ rest) = ground (arith, all-keep p rest)

of_is_live :
    (pod key : String) (tasks : List StreamTask)
    → all is_open tasks ≡ true
    → any (is_of pod key) tasks ≡ true
    → any (is_live pod key) tasks ≡ true
unfolding is_open is_live
of_is_live pod key [] h e = cc
of_is_live pod key (t ∷ rest) h e = ground (arith, of_is_live pod key rest)

module _ (c : Settings) (unlimited : c.max_log_requests ≡ 0) where
  try_start-open :
      (pod key : String) (params : ℕ × ℕ) (s : Source)
      → all is_open s.active ≡ true
      → all is_open (try_start c pod key params s).1.active ≡ true
  unfolding try_start is_open
  try_start-open pod key (tail, since) s h = ground arith

  try_start-stream :
      (pod key : String) (params : ℕ × ℕ) (s : Source)
      → all is_open s.active ≡ true
      → has_stream (try_start c pod key params s).1 pod key ≡ true
  unfolding try_start is_live is_of has_permit
  try_start-stream pod key (tail, since) s h =
      ground (arith, unlimited, of_is_live pod key s.active h, eq_refl pod, eq_refl key)

  try_start-keeps :
      (pod key : String) (params : ℕ × ℕ) (s : Source) (p k : String)
      → has_stream s p k ≡ true
      → has_stream (try_start c pod key params s).1 p k ≡ true
  unfolding try_start
  try_start-keeps pod key (tail, since) s p k h = ground arith

  start_each-open :
      (pod : String) (keys : List String) (params : ℕ × ℕ) (s : Source)
      → all is_open s.active ≡ true
      → all is_open (start_each c pod keys params s).1.active ≡ true
  unfolding start_each
  start_each-open pod [] params s h = h
  start_each-open pod (key ∷ rest) params s h =
      start_each-open pod rest params (try_start c pod key params s).1
        (try_start-open pod key params s h)

  start_each-keeps :
      (pod : String) (keys : List String) (params : ℕ × ℕ) (s : Source) (p k : String)
      → has_stream s p k ≡ true
      → has_stream (start_each c pod keys params s).1 p k ≡ true
  unfolding start_each
  start_each-keeps pod [] params s p k h = h
  start_each-keeps pod (key ∷ rest) params s p k h =
      start_each-keeps pod rest params (try_start c pod key params s).1 p k
        (try_start-keeps pod key params s p k h)

  start_each-streams :
      (pod : String) (keys : List String) (params : ℕ × ℕ) (s : Source)
      → all is_open s.active ≡ true
      → All (λ key. has_stream (start_each c pod keys params s).1 pod key ≡ true) keys
  unfolding start_each
  start_each-streams pod [] params s h = tt
  start_each-streams pod (key ∷ rest) params s h = (
    start_each-keeps pod rest params (try_start c pod key params s).1 pod key
        (try_start-stream pod key params s h),
    start_each-streams pod rest params (try_start c pod key params s).1
        (try_start-open pod key params s h),
  )

  start_pod-active :
      (pod : String) (keys : List String) (s : Source)
      → (start_pod c pod keys s).active
        ≡ (start_each c pod keys (stream_params c pod s.initialized) s).1.active
  unfolding start_pod initialize
  start_pod-active pod keys s = ground arith

  start_pod-open :
      (pod : String) (keys : List String) (s : Source)
      → all is_open s.active ≡ true
      → all is_open (start_pod c pod keys s).active ≡ true
  start_pod-open pod keys s h =
      rw (start_pod-active pod keys s)
        (start_each-open pod keys (stream_params c pod s.initialized) s h)

  start_pod-keeps :
      (pod : String) (keys : List String) (s : Source) (p k : String)
      → has_stream s p k ≡ true
      → has_stream (start_pod c pod keys s) p k ≡ true
  start_pod-keeps pod keys s p k h =
      rw (start_pod-active pod keys s)
        (start_each-keeps pod keys (stream_params c pod s.initialized) s p k h)

  start_pod-streams :
      (pod : String) (keys : List String) (s : Source)
      → all is_open s.active ≡ true
      → All (λ key. has_stream (start_pod c pod keys s) pod key ≡ true) keys
  start_pod-streams pod keys s h =
      rw (start_pod-active pod keys s)
        (start_each-streams pod keys (stream_params c pod s.initialized) s h)

  restart_each-keeps :
      (pods : Map (List String)) (s : Source) (p k : String)
      → has_stream s p k ≡ true
      → has_stream (restart_each c pods s) p k ≡ true
  unfolding restart_each
  restart_each-keeps [] s p k h = h
  restart_each-keeps ((pod, keys) ∷ rest) s p k h =
      restart_each-keeps rest (start_pod c pod keys s) p k (start_pod-keeps pod keys s p k h)

  All-keep :
      (pods : Map (List String)) (s : Source) (pod : String) (keys : List String)
      → All (λ key. has_stream s pod key ≡ true) keys
      → All (λ key. has_stream (restart_each c pods s) pod key ≡ true) keys
  All-keep pods s pod [] h = tt
  All-keep pods s pod (key ∷ rest) h =
      (restart_each-keeps pods s pod key h.0, All-keep pods s pod rest h.1)

  restart_each-streams :
      (pods : Map (List String)) (s : Source)
      → all is_open s.active ≡ true
      → All
          (λ (e : String × List String).
            All (λ key. has_stream (restart_each c pods s) e.0 key ≡ true) e.1)
          pods
  unfolding restart_each
  restart_each-streams [] s h = tt
  restart_each-streams ((pod, keys) ∷ rest) s h = (
    All-keep rest (start_pod c pod keys s) pod keys (start_pod-streams pod keys s h),
    restart_each-streams rest (start_pod c pod keys s) (start_pod-open pod keys s h),
  )

-- Without a limit on the requests, after a tick of the reconcile loop every container of every pod
-- that is known to run has a stream that is not finished, whatever had ended before.
pub step-tick-streams :
    (c : Settings) (s : Source)
    → c.max_log_requests ≡ 0
    → All
        (λ (e : String × List String). All (λ key. has_stream (step c tick s) e.0 key ≡ true) e.1)
        s.running_pods
unfolding step reconcile
step-tick-streams c s unlimited =
    restart_each-streams c unlimited s.running_pods
      (record s { active = keep (λ t. not t.is_finished) s.active })
      (unfold is_open in all-keep is_open s.active)
