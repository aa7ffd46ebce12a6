-- ===== src/Relay/Capacity.antt =====
-- The permits of the semaphore of crates/vigil-log-relay/src/source_k8s/, and the requests that they allow.
use vigil_rs.Prelude.{
  ℕ, ◌+◌, ◌*◌, if◌then◌else◌, ◌<◌, ◌≤◌, ◌≡◌, refl, Bool, true, not, Option, none, some, List, [],
  ◌∷◌, String, Map, lookup, any, keep, str_eq, arith, if_both, is_some, insert, remove,
}
use vigil_rs.Relay.Pods.{
  Pod, StreamTask, Settings, Source, new_source, stream_params, has_permit, try_start, start_each,
  initialize, start_pod, others, running_tasks, abort_pod, apply_running, apply_stopped,
  apply_named, apply_pod, delete_named, restart_each, reconcile, is_live, finish, Event, applied,
  init_applied, deleted, init, init_done, watcher_error, tick, stream_ended, abort_done,
  detached_ended, step, run, keys_for_pod,
}

-- the tasks that run
abbrev pub live : List StreamTask → ℕ
live tasks = running_tasks (λ t. true) tasks

-- Every permit is free, or with a task that runs, or with one that is being aborted; and only a stream of
-- two leaves inner tasks behind.
abbrev pub IsBalanced : Settings → Source → Type 0
IsBalanced c s =
    (s.free + s.aborting + live s.active ≡ c.max_log_requests)
    × ((if c.is_separate then 0 else s.detached) ≡ 0)

live-others :
    (pod : String) (tasks : List StreamTask)
    → live tasks ≡ running_tasks (λ t. str_eq t.pod pod) tasks + live (others pod tasks)
unfolding running_tasks others
live-others pod [] = refl
live-others pod (t ∷ rest) = ground (arith, live-others pod rest)

live-keep : (tasks : List StreamTask) → live (keep (λ t. not t.is_finished) tasks) ≡ live tasks
unfolding running_tasks
live-keep [] = refl
live-keep (t ∷ rest) = ground (arith, live-keep rest)

live-finish :
    (pod key : String) (tasks : List StreamTask)
    → any (is_live pod key) tasks ≡ true
    → live (finish pod key tasks) + 1 ≡ live tasks
unfolding running_tasks finish is_live
live-finish pod key [] h = cc
live-finish pod key (t ∷ rest) h = ground (arith, live-finish pod key rest)

module _ (c : Settings) (limited : 0 < c.max_log_requests) where
  try_start-IsBalanced :
      (pod key : String) (params : ℕ × ℕ) (s : Source)
      → IsBalanced c s
      → IsBalanced c (try_start c pod key params s).1
  unfolding try_start has_permit running_tasks
  try_start-IsBalanced pod key (tail, since) s h = ground arith

  start_each-IsBalanced :
      (pod : String) (keys : List String) (params : ℕ × ℕ) (s : Source)
      → IsBalanced c s
      → IsBalanced c (start_each c pod keys params s).1
  unfolding start_each
  start_each-IsBalanced pod [] params s h = h
  start_each-IsBalanced pod (key ∷ rest) params s h =
      start_each-IsBalanced pod rest params (try_start c pod key params s).1
        (try_start-IsBalanced pod key params s h)

  initialize-IsBalanced :
      (started : Bool) (pod : String) (s : Source)
      → IsBalanced c s
      → IsBalanced c (initialize started pod s)
  unfolding initialize
  initialize-IsBalanced started pod s h = ground arith

  start_pod-IsBalanced :
      (pod : String) (keys : List String) (s : Source)
      → IsBalanced c s
      → IsBalanced c (start_pod c pod keys s)
  unfolding start_pod
  start_pod-IsBalanced pod keys s h =
      initialize-IsBalanced (start_each c pod keys (stream_params c pod s.initialized) s).0 pod _
        (start_each-IsBalanced pod keys (stream_params c pod s.initialized) s h)

  restart_each-IsBalanced :
      (pods : Map (List String)) (s : Source)
      → IsBalanced c s
      → IsBalanced c (restart_each c pods s)
  unfolding restart_each
  restart_each-IsBalanced [] s h = h
  restart_each-IsBalanced ((pod, keys) ∷ rest) s h =
      restart_each-IsBalanced rest (start_pod c pod keys s) (start_pod-IsBalanced pod keys s h)

  abort_pod-IsBalanced :
      (pod : String) (s : Source) → IsBalanced c s → IsBalanced c (abort_pod pod s)
  unfolding abort_pod
  abort_pod-IsBalanced pod s h = omega (arith, h, live-others pod s.active)

  apply_running-IsBalanced :
      (pod : Pod) (name : String) (s : Source)
      → IsBalanced c s
      → IsBalanced c (apply_running c pod name s)
  unfolding apply_running
  apply_running-IsBalanced pod name s h = if_both (IsBalanced c) (c.is_excluded name) s _ h (
      start_pod-IsBalanced name (keys_for_pod c.selector pod)
        (record s { running_pods = insert name (keys_for_pod c.selector pod) s.running_pods }) h)

  apply_stopped-IsBalanced :
      (name : String) (s : Source) → IsBalanced c s → IsBalanced c (apply_stopped name s)
  unfolding apply_stopped
  apply_stopped-IsBalanced name s h =
      if_both (IsBalanced c) (is_some (lookup name s.running_pods)) _ s
        (abort_pod-IsBalanced name (record s { running_pods = remove name s.running_pods }) h) h

  apply_named-IsBalanced :
      (pod : Pod) (name : Option String) (s : Source)
      → IsBalanced c s
      → IsBalanced c (apply_named c pod name s)
  unfolding apply_named
  apply_named-IsBalanced pod none s h = h
  apply_named-IsBalanced pod (some name) s h =
      if_both (IsBalanced c) pod.is_running _ _ (apply_running-IsBalanced pod name s h)
        (apply_stopped-IsBalanced name s h)

  delete_named-IsBalanced :
      (name : Option String) (s : Source) → IsBalanced c s → IsBalanced c (delete_named name s)
  unfolding delete_named
  delete_named-IsBalanced none s h = h
  delete_named-IsBalanced (some name) s h =
      abort_pod-IsBalanced name
        (record s {
          running_pods = remove name s.running_pods;
          initialized = keep (λ p. not (str_eq p name)) s.initialized;
        })
        h

  step-IsBalanced : (e : Event) (s : Source) → IsBalanced c s → IsBalanced c (step c e s)
  unfolding step apply_pod reconcile
  step-IsBalanced (applied pod) s h = apply_named-IsBalanced pod pod.name s h
  step-IsBalanced (init_applied pod) s h = apply_named-IsBalanced pod pod.name s h
  step-IsBalanced (deleted pod) s h = delete_named-IsBalanced pod.name s h
  step-IsBalanced init s h = h
  step-IsBalanced init_done s h = h
  step-IsBalanced watcher_error s h = h
  step-IsBalanced tick s h =
      restart_each-IsBalanced s.running_pods _ (omega (arith, h, live-keep s.active))
  step-IsBalanced (stream_ended pod key) s h = ground (arith, live-finish pod key s.active)
  step-IsBalanced abort_done s h = ground arith
  step-IsBalanced detached_ended s h = ground arith

  run-IsBalanced :
      (events : List Event) (s : Source) → IsBalanced c s → IsBalanced c (run c events s)
  unfolding run
  run-IsBalanced [] s h = h
  run-IsBalanced (e ∷ rest) s h = run-IsBalanced rest (step c e s) (step-IsBalanced e s h)

-- The requests that may be open: one or two for each task that runs or is being aborted, and one for
-- each inner task that goes on without its task.
abbrev pub requests : Settings → Source → ℕ
requests c s = (if c.is_separate then 2 else 1) * (s.aborting + live s.active) + s.detached

bound :
    (c : Settings) (s : Source)
    → IsBalanced c s
    → requests c s
      ≤ (if c.is_separate then 2 * c.max_log_requests + s.detached else c.max_log_requests)
bound c s (permits, left) = ground (arith, permits, left)

-- With a limit, no permit is lost or made: the free ones, the streams that run and those that are being
-- aborted are always as many as the limit. Where stdout and stderr come in one stream, no more requests
-- are open than the limit; where they are streams apart, at most two for each permit, besides
-- those of the inner tasks that an end or an abort has left behind, which hold no permit.
pub run-new_source-IsBalanced :
    (c : Settings)
    → 0 < c.max_log_requests
    → (events : List Event)
    → let s : Source = run c events (new_source c) in
      (s.free + s.aborting + live s.active ≡ c.max_log_requests)
      × (requests c s
          ≤ (if c.is_separate then 2 * c.max_log_requests + s.detached else c.max_log_requests))
unfolding new_source
run-new_source-IsBalanced c limited events =
    let h =
      run-IsBalanced c limited events (new_source c)
        (unfold running_tasks in omega arith, unfold running_tasks in ground arith) in
    (h.0, bound c (run c events (new_source c)) h)
