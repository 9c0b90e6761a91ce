-- ===== src/Delegation/Queue.antt =====
-- pkg/delegation/queue.go: `SessionQueue`, seen from one agent. Agents share the mutex and nothing
-- else. What the code does under the mutex is one step, and so is each channel operation and each
-- run of a task; a schedule says which goroutine moves next. A queue object is a pointer into
-- `objects`: a goroutine keeps its pointer when `Clear` has replaced the map.
pub mod Serial
pub mod Races
use moon_hub.Base.{
  ℕ, ◌+◌, String, Bool, true, false, Option, none, some, List, [], ◌∷◌, ◌++◌, map, ltb,
  if◌then◌else◌, length, get_elem?, set,
}

pub record AgentQueue : Type 0 where
  pub tasks : List String
  pub running : Bool

abbrev pub capacity : ℕ
capacity = 100

abbrev pub new_queue : AgentQueue
new_queue = record { tasks = []; running = false }

-- What a goroutine does next; a number is its queue pointer.
pub data Thread : Type 0 where
  -- `Submit` after it has unlocked, before it sends.
  submitting : ℕ → String → Thread
  -- `processQueue` before it locks.
  starting : Thread
  -- `processQueue` before its `select`.
  looping : ℕ → Thread
  -- The task runs.
  executing : ℕ → String → Thread
  -- The `default` branch, before it locks.
  checking : ℕ → Thread
  stopped : Thread

-- What a `done` channel receives.
pub data TaskResult : Type 0 where
  executed queue_full queue_cleared : TaskResult

pub record SessionQueue : Type 0 where
  -- The entry of the agent in the map `queues`.
  pub current : Option ℕ
  pub objects : List AgentQueue
  pub threads : List Thread
  -- The mutex is held by a goroutine that has returned.
  pub locked : Bool
  pub done : List (String × TaskResult)

unfoldable pub new_session_queue : SessionQueue
new_session_queue = record { current = none; objects = []; threads = []; locked = false; done = [] }

-- The look-up under the lock, which makes the queue if it is missing.
abbrev pub get_or_create : SessionQueue → ℕ × SessionQueue
get_or_create s = elim s.current [
  | some p ↦ (p, s)
  | none ↦ (
    length s.objects,
    record s { current = some (length s.objects); objects = s.objects ++ new_queue ∷ [] },
  )
]

-- `running = true` and `go processQueue`, unless the queue is running.
abbrev pub start : ℕ → SessionQueue → SessionQueue
start p s = elim (get_elem? s.objects p) [
  | none ↦ s
  | some q ↦ if q.running then s else record s {
    objects = set s.objects p (record q { running = true });
    threads = s.threads ++ starting ∷ [];
  }
]

abbrev pub spawn : Thread → SessionQueue → SessionQueue
spawn t s = record s { threads = s.threads ++ t ∷ [] }

-- The locked part of `Submit`.
unfoldable pub submit : String → SessionQueue → SessionQueue
submit task s =
    if s.locked then s else let r = get_or_create s in spawn (submitting r.0 task) (start r.0 r.1)

abbrev pub become : ℕ → Thread → SessionQueue → SessionQueue
become i t s = record s { threads = set s.threads i t }

abbrev pub finish : String → TaskResult → SessionQueue → SessionQueue
finish task result s = record s { done = (task, result) ∷ s.done }

abbrev pub write : ℕ → AgentQueue → SessionQueue → SessionQueue
write p q s = record s { objects = set s.objects p q }

-- The `select` that ends `Submit`.
unfoldable pub send : ℕ → ℕ → String → SessionQueue → SessionQueue
send i p task s = elim (get_elem? s.objects p) [
  | none ↦ s
  | some q ↦ become i stopped (
      if ltb (length q.tasks) capacity
      then write p (record q { tasks = q.tasks ++ task ∷ [] }) s
      else finish task queue_full s)
]

-- The first lines of `processQueue`. Where the map has no entry it returns and never unlocks.
unfoldable pub begin : ℕ → SessionQueue → SessionQueue
begin i s = if s.locked then s else elim s.current [
  | none ↦ record (become i stopped s) { locked = true }
  | some p ↦ become i (looping p) s
]

abbrev pub take_task : ℕ → ℕ → AgentQueue → List String → SessionQueue → SessionQueue
take_task i p q [] s = become i (checking p) s
take_task i p q (t ∷ ts) s = become i (executing p t) (write p (record q { tasks = ts }) s)

-- The `select` of `processQueue`.
unfoldable pub receive : ℕ → ℕ → SessionQueue → SessionQueue
receive i p s = elim (get_elem? s.objects p) [ none ↦ s | some q ↦ take_task i p q q.tasks s ]

unfoldable pub complete : ℕ → ℕ → String → SessionQueue → SessionQueue
complete i p task s = become i (looping p) (finish task executed s)

abbrev pub stop_if_empty : ℕ → ℕ → AgentQueue → List String → SessionQueue → SessionQueue
stop_if_empty i p q [] s = become i stopped (write p (record q { running = false }) s)
stop_if_empty i p q (t ∷ ts) s = become i (looping p) s

-- The locked part of the `default` branch.
unfoldable pub check : ℕ → ℕ → SessionQueue → SessionQueue
check i p s =
    if s.locked
    then s
    else elim (get_elem? s.objects p) [ none ↦ s | some q ↦ stop_if_empty i p q q.tasks s ]

-- The next move of goroutine `i`.
unfoldable pub move : ℕ → Thread → SessionQueue → SessionQueue
unfolding send begin receive complete check
move i (submitting p task) s = send i p task s
move i starting s = begin i s
move i (looping p) s = receive i p s
move i (executing p task) s = complete i p task s
move i (checking p) s = check i p s
move i stopped s = s

unfoldable pub advance : ℕ → SessionQueue → SessionQueue
unfolding move
advance i s = elim (get_elem? s.threads i) [ none ↦ s | some t ↦ move i t s ]

abbrev pub drain : ℕ → SessionQueue → SessionQueue
drain p s = elim (get_elem? s.objects p) [
  | none ↦ s
  | some q ↦ record s {
    objects = set s.objects p new_queue;
    done = map (λ t. (t, queue_cleared)) q.tasks ++ s.done;
  }
]

-- `Clear`.
unfoldable pub clear : SessionQueue → SessionQueue
clear s =
    if s.locked
    then s
    else elim s.current [ none ↦ s | some p ↦ record (drain p s) { current = none } ]

unfoldable pub get_queue_length : SessionQueue → ℕ
get_queue_length s = elim s.current [
  | none ↦ 0
  | some p ↦ elim (get_elem? s.objects p) [ none ↦ 0 | some q ↦ length q.tasks ]
]

pub data Event : Type 0 where
  submits : String → Event
  advances : ℕ → Event
  clears : Event

unfoldable pub step : Event → SessionQueue → SessionQueue
unfolding submit advance clear
step (submits task) s = submit task s
step (advances i) s = advance i s
step clears s = clear s

unfoldable pub run : List Event → SessionQueue → SessionQueue
unfolding step
run [] s = s
run (e ∷ es) s = run es (step e s)
