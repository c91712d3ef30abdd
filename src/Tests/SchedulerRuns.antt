-- ===== src/Tests/SchedulerRuns.antt =====
-- Runs of kernel/threading/scheduler.cpp and kernel/format.cpp.
use influx.Base.{ℕ, zero, suc, ◌≡◌, refl, true, false, List, [], ◌∷◌, ◌++◌, Option, some, arith}
use influx.Base.Run.{ok}
use influx.Threading.Scheduler.{
  ThreadState, ready, running, blocked, Scheduler, is_running, elect, next_of,
  update_priority_queue_next_task, get_next_task, reschedule, priority_levels,
}
use influx.Threading.Scheduler.Turn.{
  Waits, Turns, AllWait, Chooses, update_priority_queue_next_task-Turns, get_next_task-Chooses,
}
use influx.Threading.Scheduler.Running.{OnlyCurrent, reschedule-OnlyCurrent}
use mathlib.Core.List.{reverse}
use mathlib.Core.Path.{subst}
use influx.Format.{dec, magnitude, to_string}
use influx.Format.Digits.{marks, value, to_string-value}

-- Task 0 runs and tasks 1 and 2 are ready; task 3 is blocked.
abbrev state_of : ℕ → ThreadState
state_of zero = running
state_of (suc zero) = ready
state_of (suc (suc zero)) = ready
state_of (suc (suc (suc t))) = blocked

-- One queue, whose next task is task 2.
abbrev one_queue : Scheduler
one_queue = record {
  tasks = λ t. record {
    pid = 0;
    state = state_of t;
    quantum = 0;
    sleep_quantum = 0;
    signal_interruptible = false;
  };
  priority = λ pid. 0;
  queues = record { ring = 0 ∷ 1 ∷ 2 ∷ 3 ∷ []; next_task = some 2 } ∷ [];
  current_task = 0;
  idle_task = 9;
  clean_task = 8;
  killed_tasks = [];
  max_quantum = 5;
}

first_queue-Waits : Waits one_queue 0 2
first_queue-Waits = record {
  queue = record { ring = 0 ∷ 1 ∷ 2 ∷ 3 ∷ []; next_task = some 2 };
  before = 0 ∷ 1 ∷ [];
  behind = 3 ∷ [];
  listed = refl;
  next = refl;
  ring = refl;
  once = ((λ e. omega arith), ((λ e. omega arith), tt));
}

one_queue-AllWait : AllWait one_queue
unfolding next_of
one_queue-AllWait zero c e =
    let same : 2 ≡ c = cc in subst (λ (k : ℕ). Waits one_queue 0 k) same first_queue-Waits
one_queue-AllWait (suc p) c e = cc

one_queue-OnlyCurrent : OnlyCurrent one_queue
unfolding is_running
one_queue-OnlyCurrent zero h = refl
one_queue-OnlyCurrent (suc zero) h = cc
one_queue-OnlyCurrent (suc (suc zero)) h = cc
one_queue-OnlyCurrent (suc (suc (suc t))) h = cc

update_priority_queue_next_task-Turns_example :
    (s' : Scheduler) × (update_priority_queue_next_task one_queue 0 ≡ ok (s', 2))
    × Turns one_queue 0 2 first_queue-Waits s'
update_priority_queue_next_task-Turns_example =
    update_priority_queue_next_task-Turns one_queue 0 2 first_queue-Waits

get_next_task-Chooses_example :
    (s' : Scheduler) × (r : Option ℕ) × (get_next_task one_queue ≡ ok (s', r))
    × Chooses priority_levels one_queue one_queue-AllWait s' r
get_next_task-Chooses_example = get_next_task-Chooses one_queue one_queue-AllWait

reschedule-OnlyCurrent_example :
    (s₁ s₂ : Scheduler) × (r : Option ℕ) × (reschedule one_queue ≡ ok s₂)
    × Chooses priority_levels one_queue one_queue-AllWait s₁ r
    × (s₂.current_task ≡ elect s₁ r)
    × OnlyCurrent s₂
    × (is_running (s₂.tasks s₂.current_task).state ≡ true)
reschedule-OnlyCurrent_example =
    reschedule-OnlyCurrent one_queue one_queue-AllWait one_queue-OnlyCurrent

to_string-value_example :
    (text : List ℕ) × (to_string 1904 dec true 0 ≡ marks 1904 dec true ++ text)
    × (value 10 (reverse text) ≡ magnitude 1904 dec true)
to_string-value_example = to_string-value 1904 dec true (omega arith)

number_text : to_string 1904 dec true 6 ≡ b'0' ∷ b'0' ∷ b'1' ∷ b'9' ∷ b'0' ∷ b'4' ∷ []
unfolding to_string
number_text = refl
