-- ===== src/Threading/Scheduler/Leave.antt =====
-- How tasks of kernel/threading/scheduler.cpp leave the processor and come back: `sleep`, the end of the
-- current task, and the timer that wakes the sleeping.
use influx.Base.{
  ℕ, ◌+◌, ◌*◌, ◌%◌, Bool, true, false, ◌&&◌, List, [], ◌∷◌, ◌++◌, none, some, set, get_elem?, ◌==◌,
  if◌then◌else◌, sub64, u64_mod,
}
use influx.Base.Run.{Run, fault, assertion_failed}
use influx.Threading.Scheduler.{
  put, put_state, is_next, no_next, set_next, next_of, reschedule, priority_of, unblock_task,
  ThreadState, ready, sleeping, killed, PriorityQueue, Scheduler,
}

-- `sleep` up to the switch to another task. `step` is the frequency of the timer in a millisecond.
unfoldable pub sleep : Scheduler → ℕ → ℕ → Run Scheduler
unfolding put is_next next_of set_next priority_of reschedule
sleep s step ms =
    let c = s.current_task in
    let task = record (s.tasks c) {
      signal_interruptible = true;
      sleep_quantum = ms * step % u64_mod;
      state = sleeping;
    } in
    let p = priority_of s c in
    let s' = record s { tasks = put s.tasks c task } in
    if ms == 0
    then fault assertion_failed
    else reschedule (if is_next (next_of s p) c then set_next s' p none else s')

unfoldable pub remove_task : ℕ → List ℕ → List ℕ
remove_task t [] = []
remove_task t (u ∷ ring) = if u == t then ring else u ∷ remove_task t ring

-- `kill_current_task`, less the memory of a process that ends.
unfoldable pub kill_current_task : Scheduler → Run Scheduler
unfolding remove_task put_state is_next next_of priority_of unblock_task reschedule
kill_current_task s =
    let c = s.current_task in
    let p = priority_of s c in
    let next = if is_next (next_of s p) c then none else next_of s p in
    let removed : Scheduler = elim (get_elem? s.queues p) [
      | none ↦ s
      | some q ↦ record s {
        queues = set s.queues p (record { ring = remove_task c q.ring; next_task = next });
        killed_tasks = s.killed_tasks ++ c ∷ [];
      }
    ] in
    reschedule (unblock_task (put_state removed c killed) s.clean_task)

unfoldable pub is_sleeping : ThreadState → Bool
is_sleeping sleeping = true
is_sleeping other = false

-- One task of `update_tasks_sleep_quantum`, in the queue of priority `p`.
unfoldable pub wake : ℕ → ℕ → Scheduler → ℕ → Scheduler
unfolding is_sleeping put no_next next_of set_next
wake step p s t =
    let left = sub64 (s.tasks t).sleep_quantum step in
    let slept = record (s.tasks t) { sleep_quantum = left } in
    let s' = record s {
      tasks = put s.tasks t (if left == 0 then record slept { state = ready } else slept);
    } in
    if is_sleeping (s.tasks t).state
    then (if left == 0 && no_next (next_of s p) then set_next s' p (some t) else s')
    else s

unfoldable pub wake_ring : ℕ → ℕ → List ℕ → Scheduler → Scheduler
unfolding wake
wake_ring step p [] s = s
wake_ring step p (t ∷ ring) s = wake_ring step p ring (wake step p s t)

unfoldable pub wake_queues : ℕ → ℕ → List PriorityQueue → Scheduler → Scheduler
unfolding wake_ring
wake_queues step p [] s = s
wake_queues step p (q ∷ queues) s = wake_queues step (p + 1) queues (wake_ring step p q.ring s)

unfoldable pub update_tasks_sleep_quantum : ℕ → Scheduler → Scheduler
unfolding wake_queues
update_tasks_sleep_quantum step s = wake_queues step 0 s.queues s
