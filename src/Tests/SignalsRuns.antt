-- ===== src/Tests/SignalsRuns.antt =====
-- Runs of the signals of kernel/threading/scheduler.cpp, of kernel/threading/mutex.cpp and of
-- kernel/threading/task_wait_queue.cpp.
use influx.Base.{
  ℕ, ◌≡◌, refl, true, false, List, [], ◌∷◌, none, some, replicate, ◌==◌, if◌then◌else◌, arith,
}
use influx.Base.Run.{ok, fault, out_of_bounds, ◌>>=◌}
use influx.Threading.Scheduler.{running, blocked, Scheduler}
use influx.Threading.Mutex.{Mutex, inside, move, new_mutex}
use influx.Threading.WaitQueue.{notify_all, notify_each, notify_all-notify_each}
use influx.Threading.Signals.{
  get_task_interrupt_regs, SignalInfo, SignalAction, Signals, is_member, is_idle, disposition,
  pid_of,
}
use influx.Threading.Signals.Send.{ring_of, is_default, send_signal_to_process}
use influx.Threading.Signals.Next.{handle_signal_return, set_signal_mask}
use influx.Threading.Signals.Settled.{
  SettledFrom, MaskSet, Standard, handle_signal_return-Settled, set_signal_mask-Settled,
}
use influx.Threading.Signals.Choice.{Framed}
use influx.Threading.Signals.Kill.{send_signal_to_process-Kills}
use influx.Threading.Signals.Delivery.{Delivered, send_signal_to_process-Delivered}

abbrev two_tasks : Scheduler
two_tasks = record {
  tasks = λ t. record {
    pid = 4;
    state = if t == 3 then running else blocked;
    quantum = 0;
    sleep_quantum = 0;
    signal_interruptible = true;
  };
  priority = λ pid. 0;
  queues = record { ring = 3 ∷ 5 ∷ []; next_task = some 3 } ∷ [];
  current_task = 3;
  idle_task = 0;
  clean_task = 1;
  killed_tasks = [];
  max_quantum = 5;
}

abbrev caught_action : SignalAction
caught_action = record { handler = 4096; mask = 0; flags = 0; restorer = 8192 }

abbrev user_signal : SignalInfo
user_signal = record {
  sig = 10;
  error = 0;
  code = 0;
  pid = 6;
  uid = 0;
  status = 0;
  addr = 0;
  value_int = 0;
  value_ptr = 0;
}

abbrev kill_signal : SignalInfo
kill_signal = record user_signal { sig = 9 }

-- A kernel stack with a word 0x1B that is no code segment, and the frame of the user behind it.
abbrev user_stack : List ℕ
user_stack = 27 ∷ 0 ∷ 4198400 ∷ 27 ∷ 514 ∷ 4096 ∷ 35 ∷ []

abbrev quiet : Signals
quiet = record {
  sched = two_tasks;
  threads = λ t. record {
    tid = t;
    sig_queue = [];
    current_sig = none;
    sig_mask = 0;
    old_sig_mask = 0;
    signal_interrupted = false;
    stack = user_stack;
  };
  processes = λ pid. record {
    signal_dispositions = replicate 32 caught_action;
    pending_std_signals = user_signal ∷ [];
    terminated = false;
    exit_code = 1;
    exit_status = 0;
    tty = 0;
  };
  pids = 0 ∷ 1 ∷ 4 ∷ [];
  prepared = [];
  ending = [];
}

abbrev handling : Signals
handling = record quiet {
  threads = λ t. record {
    tid = t;
    sig_queue = user_signal ∷ [];
    current_sig = some 12;
    sig_mask = 1024;
    old_sig_mask = 0;
    signal_interrupted = true;
    stack = user_stack;
  };
}

handling-Standard : Standard handling
handling-Standard = record {
  dispositions = unfold pid_of in refl;
  queued = (omega arith, tt);
  framed = (3, unfold get_task_interrupt_regs in refl);
  pending = (omega arith, tt);
}

quiet-Standard : Standard quiet
quiet-Standard = record {
  dispositions = unfold pid_of in refl;
  queued = tt;
  framed = (3, unfold get_task_interrupt_regs in refl);
  pending = (omega arith, tt);
}

handle_signal_return-Settled_example :
    (s : Signals) × (handle_signal_return handling ≡ ok s) × SettledFrom handling 0 s
handle_signal_return-Settled_example =
    handle_signal_return-Settled handling handling-Standard (unfold is_idle in refl)

set_signal_mask-Settled_example :
    (s : Signals) × (set_signal_mask quiet 0 ≡ ok s) × MaskSet quiet 0 s
set_signal_mask-Settled_example = set_signal_mask-Settled quiet 0 quiet-Standard

quiet-Framed : Framed quiet 4 (ring_of quiet 4)
quiet-Framed u on of_pid = (3, unfold get_task_interrupt_regs in refl)

send_signal_to_process-Kills_example :
    (s : Signals) × (send_signal_to_process quiet 4 none kill_signal ≡ ok s)
    × ((u : ℕ)
        → is_member u (ring_of quiet 4) ≡ true
        → pid_of quiet u ≡ 4
        → is_member u s.ending ≡ true)
send_signal_to_process-Kills_example =
    send_signal_to_process-Kills quiet 4 5 none kill_signal caught_action (unfold is_member in refl)
      (omega arith) (unfold is_member ring_of in refl)
      (unfold is_member ring_of in (refl, (refl, tt))) quiet-Framed refl
      (unfold disposition in refl) refl

send_signal_to_process-Delivered_example :
    (s : Signals) × (send_signal_to_process quiet 4 none user_signal ≡ ok s)
    × Delivered quiet 4 user_signal caught_action (ring_of quiet 4) s
send_signal_to_process-Delivered_example =
    send_signal_to_process-Delivered quiet 4 5 user_signal caught_action (unfold is_member in refl)
      (omega arith) (unfold is_member ring_of in refl) quiet-Framed (unfold disposition in refl)
      (unfold is_default in refl) refl refl

-- A second SIGKILL before the tasks have run looks for the frame beyond the end of the stack.
killed_twice :
    send_signal_to_process quiet 4 none kill_signal
      >>= (λ s. send_signal_to_process s 4 none kill_signal)
    ≡ fault out_of_bounds
unfolding send_signal_to_process
killed_twice = refl

-- No task has tid 0, so the first task of the ring handles the signal.
first_handles :
    send_signal_to_process quiet 4 none user_signal >>= (λ s. ok s.prepared)
    ≡ ok ((3, user_signal) ∷ [])
unfolding send_signal_to_process
first_handles = refl

abbrev taken_mutex : Mutex
taken_mutex = record new_mutex { locked = true; phase = move new_mutex.phase 2 inside }

abbrev holder : ℕ
holder = 2

notify_all-notify_each_example :
    notify_all (5 ∷ 3 ∷ []) two_tasks ≡ notify_each (5 ∷ 3 ∷ []) (5 ∷ 3 ∷ []) two_tasks
notify_all-notify_each_example = notify_all-notify_each (5 ∷ 3 ∷ []) two_tasks
