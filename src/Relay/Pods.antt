-- ===== src/Relay/Pods.antt =====
-- The event loop of crates/vigil-log-relay/src/source_k8s/mod.rs and `try_start` of stream.rs there: which pods
-- run, which streams are open, and the permits of the semaphore. The events of the watcher, the
-- ends of streams and the ticks are inputs. The texts in a stream's requests are in Stream.
use vigil_rs.Prelude.{
  ℕ, ◌+◌, ◌-◌, Bool, true, false, not, ◌&&◌, ◌||◌, Option, none, some, List, [], ◌∷◌, String, Map,
  lookup, insert, remove, contains, is_some, str_eq, any, keep, ltb, ◌==◌, if◌then◌else◌,
}

-- `--container`: the default container, all of a pod, or those named
pub data ContainerSelector : Type 0 where
  default_container all_containers : ContainerSelector
  named : List String → ContainerSelector

-- what is read of a pod: its name, whether its phase is Running, its containers
pub record Pod : Type 0 where
  pub name : Option String
  pub is_running : Bool
  pub containers : Option (List String)

abbrev pub default_key : List String
default_key = "" ∷ []

unfoldable pub keys_for_pod : ContainerSelector → Pod → List String
keys_for_pod default_container pod = default_key
keys_for_pod (named names) pod = names
keys_for_pod all_containers pod = elim pod.containers [ none ↦ default_key | some names ↦ names ]

-- An entry of `active`; its task holds a permit until it is finished, and has one request open, or two
-- inner tasks with one each where stdout and stderr are asked for apart.
pub record StreamTask : Type 0 where
  pub pod : String
  pub key : String
  pub tail : ℕ
  pub since : ℕ
  pub is_finished : Bool

-- What the command line fixes.
pub record Settings : Type 0 where
  pub selector : ContainerSelector
  pub is_excluded : String → Bool
  pub max_log_requests : ℕ
  -- `use_stream_param`: stdout and stderr are streams apart
  pub is_separate : Bool
  pub tail_lines : ℕ
  pub since_seconds : ℕ

-- The locals of `run`, the free permits, the aborted tasks that have not yet given theirs back, and the
-- inner tasks that go on without the task that spawned them.
pub record Source : Type 0 where
  pub running_pods : Map (List String)
  pub active : List StreamTask
  pub initialized : List String
  pub free : ℕ
  pub aborting : ℕ
  pub detached : ℕ

unfoldable pub new_source : Settings → Source
new_source c = record {
  running_pods = [];
  active = [];
  initialized = [];
  free = c.max_log_requests;
  aborting = 0;
  detached = 0;
}

-- The first stream of a pod starts with the last lines, later ones only with the recent ones.
unfoldable pub stream_params : Settings → String → List String → ℕ × ℕ
stream_params c pod initialized =
    if contains initialized pod then (0, c.since_seconds) else (c.tail_lines, c.since_seconds)

unfoldable pub is_of : String → String → StreamTask → Bool
is_of pod key t = str_eq t.pod pod && str_eq t.key key

-- without a limit there is no semaphore
unfoldable pub has_permit : Settings → Source → Bool
has_permit c s = c.max_log_requests == 0 || ltb 0 s.free

unfoldable pub try_start : Settings → String → String → ℕ × ℕ → Source → Bool × Source
unfolding is_of has_permit
try_start c pod key (tail, since) s =
    if any (is_of pod key) s.active
    then (false, s)
    else if not (has_permit c s)
    then (false, s)
    else (
      true,
      record s {
        active =
            record { pod = pod; key = key; tail = tail; since = since; is_finished = false }
            ∷ s.active;
        free = s.free - 1;
      },
    )

unfoldable pub start_each : Settings → String → List String → ℕ × ℕ → Source → Bool × Source
unfolding try_start
start_each c pod [] params s = (false, s)
start_each c pod (key ∷ rest) params s =
    let (first, t) = try_start c pod key params s in
    let (later, u) = start_each c pod rest params t in (first || later, u)

unfoldable pub initialize : Bool → String → Source → Source
initialize any_started pod s =
    if any_started && not (contains s.initialized pod)
    then record s { initialized = pod ∷ s.initialized }
    else s

-- `stream_params`, then `try_start` for every key, then the mark of a pod that has been started
unfoldable pub start_pod : Settings → String → List String → Source → Source
unfolding start_each stream_params initialize
start_pod c pod keys s =
    let (any_started, t) = start_each c pod keys (stream_params c pod s.initialized) s in
    initialize any_started pod t

-- the entries of other pods
unfoldable pub others : String → List StreamTask → List StreamTask
others pod tasks = keep (λ t. not (str_eq t.pod pod)) tasks

-- how many tasks of a pod run
unfoldable pub running_tasks : (StreamTask → Bool) → List StreamTask → ℕ
running_tasks p [] = 0
running_tasks p (t ∷ rest) = (if p t && not t.is_finished then 1 else 0) + running_tasks p rest

-- `active.retain`, with `abort` for the tasks of the pod
unfoldable pub abort_pod : String → Source → Source
unfolding others running_tasks
abort_pod pod s = record s {
  active = others pod s.active;
  aborting = s.aborting + running_tasks (λ t. str_eq t.pod pod) s.active;
}

unfoldable pub apply_running : Settings → Pod → String → Source → Source
unfolding start_pod keys_for_pod
apply_running c pod name s =
    if c.is_excluded name
    then s
    else start_pod c name (keys_for_pod c.selector pod)
        (record s { running_pods = insert name (keys_for_pod c.selector pod) s.running_pods })

unfoldable pub apply_stopped : String → Source → Source
unfolding abort_pod
apply_stopped name s =
    if is_some (lookup name s.running_pods)
    then abort_pod name (record s { running_pods = remove name s.running_pods })
    else s

unfoldable pub apply_named : Settings → Pod → Option String → Source → Source
unfolding apply_running apply_stopped
apply_named c pod none s = s
apply_named c pod (some name) s =
    if pod.is_running then apply_running c pod name s else apply_stopped name s

unfoldable pub apply_pod : Settings → Pod → Source → Source
unfolding apply_named
apply_pod c pod s = apply_named c pod pod.name s

unfoldable pub delete_named : Option String → Source → Source
unfolding abort_pod
delete_named none s = s
delete_named (some name) s = abort_pod name (record s {
  running_pods = remove name s.running_pods;
  initialized = keep (λ p. not (str_eq p name)) s.initialized;
})

unfoldable pub restart_each : Settings → Map (List String) → Source → Source
unfolding start_pod
restart_each c [] s = s
restart_each c ((pod, keys) ∷ rest) s = restart_each c rest (start_pod c pod keys s)

-- the entries whose tasks are finished go, and every pod that runs gets its streams
unfoldable pub reconcile : Settings → Source → Source
unfolding restart_each
reconcile c s =
    restart_each c s.running_pods (record s { active = keep (λ t. not t.is_finished) s.active })

unfoldable pub is_live : String → String → StreamTask → Bool
unfolding is_of
is_live pod key t = is_of pod key t && not t.is_finished

-- A task that is not finished ends.
unfoldable pub finish : String → String → List StreamTask → List StreamTask
unfolding is_live
finish pod key [] = []
finish pod key (t ∷ rest) =
    if is_live pod key t then record t { is_finished = true } ∷ rest else t ∷ finish pod key rest

pub data Event : Type 0 where
  applied init_applied deleted : Pod → Event
  init init_done watcher_error tick : Event
  stream_ended : String → String → Event
  abort_done detached_ended : Event

-- the inner tasks that a finished task leaves, the sibling that it has told to abort, and those that an
-- aborted one leaves
abbrev pub left_by_end : Settings → ℕ
left_by_end c = if c.is_separate then 1 else 0

abbrev pub left_by_abort : Settings → ℕ
left_by_abort c = if c.is_separate then 2 else 0

unfoldable pub step : Settings → Event → Source → Source
unfolding apply_pod delete_named reconcile finish is_live
step c (applied pod) s = apply_pod c pod s
step c (init_applied pod) s = apply_pod c pod s
step c (deleted pod) s = delete_named pod.name s
step c init s = s
step c init_done s = s
step c watcher_error s = s
step c tick s = reconcile c s
step c (stream_ended pod key) s =
    if any (is_live pod key) s.active
    then record s {
      active = finish pod key s.active;
      free = s.free + 1;
      detached = s.detached + left_by_end c;
    }
    else s
step c abort_done s =
    if ltb 0 s.aborting
    then record s {
      aborting = s.aborting - 1;
      free = s.free + 1;
      detached = s.detached + left_by_abort c;
    }
    else s
step c detached_ended s = record s { detached = s.detached - 1 }

unfoldable pub run : Settings → List Event → Source → Source
unfolding step
run c [] s = s
run c (e ∷ rest) s = run c rest (step c e s)
