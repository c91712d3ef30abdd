-- ===== src/Threading/Signals/Send.antt =====
-- Sending a signal to a process, kernel/threading/scheduler.cpp. The rings of tasks are those of the priority
-- queues; the loops over a ring read its start, which is null if it is empty.
use influx.Base.{
  ℕ, ◌+◌, Bool, not, ◌&&◌, ◌||◌, List, [], ◌∷◌, ◌++◌, Option, none, some, set, get_elem?, ltb, leb,
  ◌==◌, if◌then◌else◌,
}
use influx.Base.Run.{Run, ok, fault, ◌>>=◌, assertion_failed, null_pointer}
use influx.Threading.Signals.{
  get_task_interrupt_regs, SignalInfo, SignalAction, Signals, update, is_member, signal_count,
  sigkill, sigstop, blocks, is_idle, disposition, pid_of, interrupt_task, send_signal_to_task,
}

-- The ring of the tasks with the priority of a process.
unfoldable pub ring_of : Signals → ℕ → List ℕ
ring_of s pid = elim (get_elem? s.sched.queues (s.sched.priority pid)) [
  | none ↦ []
  | some q ↦ q.ring
]

-- The frame of a task gets the segments of the kernel. The end and the stack that it also gets are those
-- of `ending`.
unfoldable pub end_frame : Signals → ℕ → ℕ → Signals
unfolding update
end_frame s t k =
    let thread = s.threads t in
    let stack = set (set thread.stack k 0x8) (k + 3) 0x10 in
    record s {
      threads = update s.threads t (record thread { stack = stack });
      ending = t ∷ s.ending;
    }

-- One task in the loop of `kill_all_tasks`.
unfoldable pub end_task : Signals → ℕ → Run Signals
unfolding interrupt_task end_frame get_task_interrupt_regs
end_task s t =
    get_task_interrupt_regs (s.threads t).stack >>= λ k. ok (interrupt_task (end_frame s t k) t)

unfoldable pub end_ring : ℕ → List ℕ → Signals → Run Signals
unfolding pid_of end_task
end_ring pid [] s = ok s
end_ring pid (t ∷ ring) s = (if pid_of s t == pid then end_task s t else ok s) >>= end_ring pid ring

unfoldable pub kill_all_tasks : Signals → ℕ → Run Signals
unfolding is_member ring_of end_ring
kill_all_tasks s pid =
    if not (is_member pid s.pids)
    then fault assertion_failed
    else elim (ring_of s pid) [ [] ↦ fault null_pointer | t ∷ ring ↦ end_ring pid (t ∷ ring) s ]

-- CLD_EXITED is 1 and CLD_KILLED is 2.
unfoldable pub set_exit : Signals → ℕ → ℕ → ℕ → Signals
unfolding update
set_exit s pid code status =
    let p = record (s.processes pid) { exit_code = code; exit_status = status } in
    record s { processes = update s.processes pid p }

unfoldable pub kill_with_signal : Signals → ℕ → ℕ → Run Signals
unfolding set_exit kill_all_tasks
kill_with_signal s pid sig = kill_all_tasks (set_exit s pid 2 sig) pid

unfoldable pub exit : Signals → ℕ → Run Signals
unfolding set_exit kill_all_tasks
exit s code = let pid = pid_of s s.sched.current_task in kill_all_tasks (set_exit s pid 1 code) pid

-- SIGCHLD, SIGURG and SIGWINCH.
unfoldable pub ignored_by_default : ℕ → Bool
ignored_by_default sig = sig == 17 || sig == 23 || sig == 28

unfoldable pub default_signal_handler : Signals → ℕ → SignalInfo → Run Signals
unfolding ignored_by_default kill_with_signal
default_signal_handler s pid info =
    if ignored_by_default info.sig
    then ok s
    else if (s.processes pid).terminated
    then ok s
    else kill_with_signal s pid info.sig

-- Whether a task may handle a signal now.
unfoldable pub can_handle : Signals → ℕ → ℕ → Bool
unfolding blocks is_idle
can_handle s sig t = not (blocks (s.threads t).sig_mask sig) && is_idle (s.threads t).current_sig

unfoldable pub is_main : Signals → ℕ → ℕ → Bool
unfolding pid_of
is_main s pid t = pid_of s t == pid && (s.threads t).tid == 0

unfoldable pub is_free : Signals → ℕ → ℕ → ℕ → Bool
unfolding pid_of can_handle
is_free s pid sig t = pid_of s t == pid && can_handle s sig t

-- The loops over the ring that end at a task, or come back to the start.
unfoldable pub find_task : (ℕ → Bool) → List ℕ → Option ℕ
find_task p [] = none
find_task p (t ∷ ring) = if p t then some t else find_task p ring

-- The main thread if it can handle the signal, else the first thread that can.
unfoldable pub choose_task : Signals → ℕ → ℕ → List ℕ → Option ℕ
unfolding is_main is_free can_handle find_task
choose_task s pid sig ring = elim (find_task (is_main s pid) ring) [
  | none ↦ find_task (is_free s pid sig) ring
  | some t ↦ if can_handle s sig t then some t else find_task (is_free s pid sig) ring
]

unfoldable pub queue_for_process : Signals → ℕ → SignalInfo → Signals
unfolding update
queue_for_process s pid info =
    let p = s.processes pid in
    record s {
      processes =
          update s.processes pid
            (record p { pending_std_signals = p.pending_std_signals ++ info ∷ [] });
    }

unfoldable pub queue_for_task : Signals → ℕ → SignalInfo → Signals
unfolding update
queue_for_task s t info =
    let thread = s.threads t in
    record s {
      threads = update s.threads t (record thread { sig_queue = thread.sig_queue ++ info ∷ [] });
    }

-- The loop over the ring for a wanted thread.
unfoldable pub send_to_wanted : ℕ → ℕ → SignalInfo → List ℕ → Signals → Run Signals
unfolding pid_of can_handle queue_for_task send_signal_to_task
send_to_wanted pid tid info [] s = ok s
send_to_wanted pid tid info (t ∷ ring) s =
    let sent =
      if pid_of s t == pid && (s.threads t).tid == tid
      then (if can_handle s info.sig t
          then send_signal_to_task s t info
          else ok (queue_for_task s t info))
      else ok s in
    sent >>= send_to_wanted pid tid info ring

-- A signal with a handler.
unfoldable pub send_caught : Signals → ℕ → Option ℕ → SignalInfo → List ℕ → Run Signals
unfolding choose_task queue_for_process send_signal_to_task send_to_wanted
send_caught s pid tid info [] = fault null_pointer
send_caught s pid none info (t ∷ ring) = elim (choose_task s pid info.sig (t ∷ ring)) [
  | none ↦ ok (queue_for_process s pid info)
  | some u ↦ send_signal_to_task s u info
]
send_caught s pid (some tid) info (t ∷ ring) = send_to_wanted pid tid info (t ∷ ring) s

-- SIGKILL, SIGSTOP and the default handler.
unfoldable pub is_default : ℕ → SignalAction → Bool
is_default sig action = sig == sigkill || sig == sigstop || action.handler == 0

-- The end of `send_signal_to_process`, for a signal with a disposition of its own.
unfoldable pub send_own : Signals → ℕ → Option ℕ → SignalInfo → SignalAction → Run Signals
unfolding queue_for_process send_caught ring_of
send_own s pid tid info action =
    if action.handler == 1
    then ok s
    else if (s.processes pid).terminated
    then ok (queue_for_process s pid info)
    else send_caught s pid tid info (ring_of s pid)

unfoldable pub send_by_action : Signals → ℕ → Option ℕ → SignalInfo → SignalAction → Run Signals
unfolding is_default default_signal_handler send_own
send_by_action s pid tid info action =
    if is_default info.sig action
    then default_signal_handler s pid info
    else send_own s pid tid info action

-- `send_signal_to_process`; no `tid` is -1.
unfoldable pub send_signal_to_process : Signals → ℕ → Option ℕ → SignalInfo → Run Signals
unfolding is_member disposition send_by_action
send_signal_to_process s pid tid info =
    if not (is_member pid s.pids)
    then fault assertion_failed
    else if leb pid 1
    then ok s
    else disposition (s.processes pid) info.sig >>= send_by_action s pid tid info

-- The loops of `send_signal` and `send_sigint_to_tty` over the chosen processes.
unfoldable pub send_to_each : SignalInfo → List ℕ → Signals → Run Signals
unfolding send_signal_to_process
send_to_each info [] s = ok s
send_to_each info (pid ∷ pids) s = send_signal_to_process s pid none info >>= send_to_each info pids

unfoldable pub keep_pids : (ℕ → Bool) → List ℕ → List ℕ
keep_pids p [] = []
keep_pids p (pid ∷ pids) = if p pid then pid ∷ keep_pids p pids else keep_pids p pids

-- `send_signal` to all processes, that is to pid -1.
unfoldable pub send_signal_to_all : Signals → SignalInfo → Run Signals
unfolding send_to_each keep_pids pid_of
send_signal_to_all s info =
    let current = pid_of s s.sched.current_task in
    let others = keep_pids (λ pid. not (leb pid 1) && not (pid == current)) s.pids in
    if info.sig == 0 then ok s else send_to_each info others s

unfoldable pub send_sigint_to_tty : Signals → ℕ → Run Signals
unfolding send_to_each keep_pids
send_sigint_to_tty s tty =
    let info : SignalInfo = record {
      sig = 2;
      error = 0;
      code = 0;
      pid = 0;
      uid = 0;
      status = 0;
      addr = 0;
      value_int = 0;
      value_ptr = 0;
    } in
    send_to_each info (keep_pids (λ pid. (s.processes pid).tty == tty) s.pids) s

-- `set_signal_action` and `get_signal_action` of the current process.
unfoldable pub set_signal_action : Signals → ℕ → SignalAction → Signals
unfolding update pid_of
set_signal_action s sig action =
    let pid = pid_of s s.sched.current_task in
    let p = s.processes pid in
    if sig == sigkill || sig == sigstop || ltb sig 1 || leb signal_count sig
    then s
    else if ltb 1 action.handler && action.restorer == 0
    then s
    else record s {
      processes =
          update s.processes pid
            (record p { signal_dispositions = set p.signal_dispositions sig action });
    }

unfoldable pub get_signal_action : Signals → ℕ → Run SignalAction
unfolding disposition pid_of
get_signal_action s sig = disposition (s.processes (pid_of s s.sched.current_task)) sig
