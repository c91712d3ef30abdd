-- ===== src/Threading/Scheduler.antt =====
-- The priority queues of kernel/threading/scheduler.cpp. A task is named by a number that stands for its
-- address; its links are those of the ring of its queue. The switch of the processor's context is not
-- part of the state.
pub mod Leave
pub mod Turn
pub mod Running
use influx.Base.{
  ℕ, zero, suc, ◌+◌, ◌-◌, ◌*◌, ◌/◌, ◌%◌, Bool, true, false, not, ◌&&◌, ◌||◌, List, [], ◌∷◌, ◌++◌,
  Option, none, some, set, get_elem?, ltb, ◌==◌, if◌then◌else◌, sub64, u64_mod,
}
use influx.Base.Run.{Run, ok, fault, ◌>>=◌, assertion_failed, use_after_free}
use influx.Structures.NodeList.{find_node}

pub data ThreadState : Type 0 where
  ready : ThreadState
  running : ThreadState
  blocked : ThreadState
  sleeping : ThreadState
  waiting_for_child : ThreadState
  killed : ThreadState

pub record Task : Type 0 where
  pub pid : ℕ
  pub state : ThreadState
  pub quantum : ℕ
  pub sleep_quantum : ℕ
  pub signal_interruptible : Bool

-- `ring` has the tasks from `start` on, so it is empty if `start` is null.
pub record PriorityQueue : Type 0 where
  pub ring : List ℕ
  pub next_task : Option ℕ

pub record Scheduler : Type 0 where
  pub tasks : ℕ → Task
  pub priority : ℕ → ℕ
  pub queues : List PriorityQueue
  pub current_task : ℕ
  pub idle_task : ℕ
  pub clean_task : ℕ
  pub killed_tasks : List ℕ
  pub max_quantum : ℕ

unfoldable pub is_ready : ThreadState → Bool
is_ready ready = true
is_ready other = false

unfoldable pub is_running : ThreadState → Bool
is_running running = true
is_running other = false

-- The states in which the scheduler executes a task.
unfoldable pub runnable : Task → Bool
unfolding is_ready is_running
runnable t = is_ready t.state || is_running t.state

unfoldable pub put : (ℕ → Task) → ℕ → Task → ℕ → Task
put tasks t task u = if u == t then task else tasks u

unfoldable pub put_state : Scheduler → ℕ → ThreadState → Scheduler
unfolding put
put_state s t state = record s { tasks = put s.tasks t (record (s.tasks t) { state = state }) }

-- Whether a queue's next task is the given one.
unfoldable pub is_next : Option ℕ → ℕ → Bool
is_next none t = false
is_next (some u) t = u == t

unfoldable pub no_next : Option ℕ → Bool
no_next none = true
no_next (some u) = false

unfoldable pub set_next : Scheduler → ℕ → Option ℕ → Scheduler
set_next s p next = elim (get_elem? s.queues p) [
  | none ↦ s
  | some q ↦ record s { queues = set s.queues p (record q { next_task = next }) }
]

unfoldable pub next_of : Scheduler → ℕ → Option ℕ
next_of s p = elim (get_elem? s.queues p) [ none ↦ none | some q ↦ q.next_task ]

unfoldable pub first_runnable : (ℕ → Task) → List ℕ → Option ℕ
unfolding runnable
first_runnable tasks [] = none
first_runnable tasks (t ∷ rest) = if runnable (tasks t) then some t else first_runnable tasks rest

-- The next task of the queue after the loop and the test behind it.
unfoldable pub turn : (ℕ → Task) → ℕ → List ℕ → Option ℕ
unfolding first_runnable runnable
turn tasks c others = elim (first_runnable tasks others) [
  | some t ↦ some t
  | none ↦ if runnable (tasks c) then some c else none
]

-- The assertions on the priority and on the next task come first.
unfoldable pub update_priority_queue_next_task : Scheduler → ℕ → Run (Scheduler × ℕ)
unfolding turn
update_priority_queue_next_task s p = elim (get_elem? s.queues p) [
  | none ↦ fault assertion_failed
  | some q ↦ elim q.next_task [
    | none ↦ fault assertion_failed
    | some c ↦ elim (find_node (λ t. t == c) q.ring) [
      | none ↦ fault use_after_free
      | some (before, found, behind) ↦ ok (
        record s {
          queues = set s.queues p (record q { next_task = turn s.tasks c (behind ++ before) });
        },
        c,
      )
    ]
  ]
]

-- The loop of `get_next_task` over the priorities below `p`, from the highest on.
unfoldable pub get_next_below : Scheduler → ℕ → Run (Scheduler × Option ℕ)
unfolding update_priority_queue_next_task next_of no_next
get_next_below s zero = ok (s, none)
get_next_below s (suc p) =
    let lower = get_next_below s p in
    if no_next (next_of s p)
    then lower
    else update_priority_queue_next_task s p >>= λ r. ok (r.0, some r.1)

abbrev pub priority_levels : ℕ
priority_levels = 10

unfoldable pub get_next_task : Scheduler → Run (Scheduler × Option ℕ)
unfolding get_next_below
get_next_task s = get_next_below s priority_levels

unfoldable pub elect : Scheduler → Option ℕ → ℕ
unfolding is_running
elect s (some t) = t
elect s none = if is_running (s.tasks s.current_task).state then s.current_task else s.idle_task

-- What `reschedule` does to the tasks when the next task is known.
unfoldable pub hand_over : Scheduler → ℕ → Scheduler
unfolding put is_running
hand_over s next =
    let old = s.tasks s.current_task in
    let rested = record old {
      quantum = 0;
      state = if is_running old.state then ready else old.state;
    } in
    let tasks = put s.tasks s.current_task rested in
    record s {
      tasks = put tasks next (record (tasks next) { state = running });
      current_task = next;
    }

unfoldable pub reschedule : Scheduler → Run Scheduler
unfolding get_next_task elect hand_over
reschedule s = get_next_task s >>= λ r. ok (hand_over r.0 (elect r.0 r.1))

unfoldable pub is_blocked : ThreadState → Bool
is_blocked blocked = true
is_blocked other = false

unfoldable pub is_waiting : ThreadState → Bool
is_waiting blocked = true
is_waiting sleeping = true
is_waiting waiting_for_child = true
is_waiting other = false

unfoldable pub priority_of : Scheduler → ℕ → ℕ
priority_of s t = s.priority (s.tasks t).pid

unfoldable pub block_task : Scheduler → ℕ → Run Scheduler
unfolding put_state is_blocked is_next next_of priority_of update_priority_queue_next_task
block_task s t =
    let s' = put_state s t blocked in
    let p = priority_of s t in
    let updated = update_priority_queue_next_task s' p >>= λ r. ok r.0 in
    if is_blocked (s.tasks t).state
    then ok s
    else if is_next (next_of s p) t
    then updated
    else ok s'

unfoldable pub block_current_task : Scheduler → Run Scheduler
unfolding block_task reschedule
block_current_task s = block_task s s.current_task >>= reschedule

-- The test of `unblock_task` and `queue_task` that a task becomes the next one.
unfoldable pub offer : Scheduler → ℕ → Scheduler
unfolding no_next is_next next_of set_next priority_of
offer s t =
    let p = priority_of s t in
    if no_next (next_of s p) || is_next (next_of s p) s.current_task
    then set_next s p (some t)
    else s

unfoldable pub unblock_task : Scheduler → ℕ → Scheduler
unfolding offer put_state is_waiting
unblock_task s t = if is_waiting (s.tasks t).state then offer (put_state s t ready) t else s

-- `queue_task`: the ring takes the task behind all others.
unfoldable pub queue_task : Scheduler → ℕ → Scheduler
unfolding offer priority_of is_ready
queue_task s t =
    let p = priority_of s t in
    let queued : Scheduler = elim (get_elem? s.queues p) [
      | none ↦ s
      | some q ↦ record s { queues = set s.queues p (record q { ring = q.ring ++ t ∷ [] }) }
    ] in
    if is_ready (s.tasks t).state then offer queued t else queued
