-- ===== src/Threading/WaitQueue.antt =====
-- kernel/threading/task_wait_queue.cpp and kernel/threading/condition_variable.cpp over the scheduler. A
-- queue is the list of its tasks from the head on; its nodes link back to the head. The spinlock is held by
-- the only caller.
use influx.Base.{ℕ, Bool, true, false, not, List, [], ◌∷◌, ◌++◌, ◌≡◌, refl, sym, if◌then◌else◌}
use influx.Base.Run.{Run, ok, fault, ◌>>=◌, assertion_failed}
use influx.Threading.Scheduler.{Scheduler, block_task, unblock_task}
use influx.Threading.Scheduler.Leave

-- The tasks are blocked and queued.
unfoldable pub enqueue : List ℕ → ℕ → Scheduler → Run (List ℕ × Scheduler)
unfolding block_task
enqueue queue t s = block_task s t >>= λ s'. ok (queue ++ t ∷ [], s')

unfoldable pub dequeue : List ℕ → Scheduler → Run (List ℕ × Scheduler × ℕ)
unfolding unblock_task
dequeue [] s = fault assertion_failed
dequeue (t ∷ queue) s = ok (queue, unblock_task s t, t)

-- The loop of `dequeue_all`, with the tasks so far.
unfoldable pub dequeue_from : List ℕ → List ℕ → Scheduler → Scheduler × List ℕ
unfolding unblock_task
dequeue_from tasks [] s = (s, tasks)
dequeue_from tasks (t ∷ queue) s = dequeue_from (tasks ++ t ∷ []) queue (unblock_task s t)

unfoldable pub dequeue_all : List ℕ → Scheduler → Run (List ℕ × Scheduler × List ℕ)
unfolding dequeue_from
dequeue_all [] s = fault assertion_failed
dequeue_all (t ∷ queue) s = let (s', tasks) = dequeue_from [] (t ∷ queue) s in ok ([], s', tasks)

unfoldable pub is_empty : List ℕ → Bool
is_empty [] = true
is_empty (t ∷ queue) = false

-- The first node of the task goes.
unfoldable pub remove_task : List ℕ → ℕ → List ℕ
unfolding Leave.remove_task
remove_task queue t = Leave.remove_task t queue

unfoldable pub notify_one : List ℕ → Scheduler → Run (List ℕ × Scheduler)
unfolding is_empty dequeue
notify_one queue s =
    if not (is_empty queue) then dequeue queue s >>= (λ r. ok (r.0, r.1)) else ok (queue, s)

unfoldable pub notify_all : List ℕ → Scheduler → Run (List ℕ × Scheduler)
unfolding is_empty dequeue_all
notify_all queue s =
    if not (is_empty queue) then dequeue_all queue s >>= (λ r. ok (r.0, r.1)) else ok (queue, s)

-- The reference for `notify_all`: `notify_one` once for each task of the queue.
unfoldable pub notify_each : List ℕ → List ℕ → Scheduler → Run (List ℕ × Scheduler)
unfolding notify_one
notify_each [] queue s = ok (queue, s)
notify_each (t ∷ rounds) queue s = notify_one queue s >>= λ r. notify_each rounds r.0 r.1

dequeue_from_lem :
    (tasks queue : List ℕ) (s : Scheduler)
    → notify_each queue queue s ≡ ok ([], (dequeue_from tasks queue s).0)
unfolding notify_each dequeue_from
dequeue_from_lem tasks [] s = refl
dequeue_from_lem tasks (t ∷ queue) s = dequeue_from_lem (tasks ++ t ∷ []) queue (unblock_task s t)

-- `notify_all` does the same as `notify_one` once for each task that waits: the queue is empty and the
-- scheduler in the same state.
pub notify_all-notify_each :
    (queue : List ℕ) (s : Scheduler) → notify_all queue s ≡ notify_each queue queue s
unfolding notify_all notify_each
notify_all-notify_each [] s = refl
notify_all-notify_each (t ∷ queue) s = sym (dequeue_from_lem [] (t ∷ queue) s)
