-- ===== src/Threading/Signals.antt =====
-- Signals of kernel/threading/scheduler.cpp over the scheduler's queues. Signals are below 32, and the number
-- of a task stands for its address. The registers that a handler starts with and what is written to the
-- stack of the user are not part of the state; `prepared` lists the handlers that were prepared, the latest
-- first. The kernel stack of a thread is a list of its words, in which the frame of the user is looked for.
pub mod Send
pub mod Next
pub mod Choice
pub mod Handling
pub mod Delivery
pub mod Kill
pub mod Settled
use influx.Base.{
  ℕ, zero, suc, ◌+◌, ◌-◌, ◌^◌, Bool, true, false, not, ◌&&◌, ◌||◌, List, [], ◌∷◌, ◌++◌, Option,
  none, some, set, get_elem?, replicate, ltb, leb, ◌==◌, if◌then◌else◌,
}
use influx.Base.Run.{Run, ok, fault, ◌>>=◌, assertion_failed, out_of_bounds, null_pointer}
use influx.Base.Bits.{digit}
use Prim.Native.Nat.{bit_and, bit_or}
use influx.Threading.Scheduler.{Scheduler, PriorityQueue, unblock_task, is_waiting, priority_of}

pub record SignalInfo : Type 0 where
  pub sig : ℕ
  pub error : ℕ
  pub code : ℕ
  pub pid : ℕ
  pub uid : ℕ
  pub status : ℕ
  pub addr : ℕ
  pub value_int : ℕ
  pub value_ptr : ℕ

-- The handler is an address, or 0 for the default one, or 1 to ignore the signal.
pub record SignalAction : Type 0 where
  pub handler : ℕ
  pub mask : ℕ
  pub flags : ℕ
  pub restorer : ℕ

-- The signals of a thread. No current signal is SIGINVL. `stack` has the words of its kernel stack from its
-- context, or from the stack pointer of the current task, up to the end.
pub record SignalThread : Type 0 where
  pub tid : ℕ
  pub sig_queue : List SignalInfo
  pub current_sig : Option ℕ
  pub sig_mask : ℕ
  pub old_sig_mask : ℕ
  pub signal_interrupted : Bool
  pub stack : List ℕ

pub record SignalProcess : Type 0 where
  pub signal_dispositions : List SignalAction
  pub pending_std_signals : List SignalInfo
  pub terminated : Bool
  pub exit_code : ℕ
  pub exit_status : ℕ
  pub tty : ℕ

-- `ending` has the tasks that return to `terminate_thread`.
pub record Signals : Type 0 where
  pub sched : Scheduler
  pub threads : ℕ → SignalThread
  pub processes : ℕ → SignalProcess
  pub pids : List ℕ
  pub prepared : List (ℕ × SignalInfo)
  pub ending : List ℕ

unfoldable pub update {ℓ} : {A : Type ℓ} → (ℕ → A) → ℕ → A → ℕ → A
update f k a u = if u == k then a else f u

unfoldable pub is_member : ℕ → List ℕ → Bool
is_member n [] = false
is_member n (m ∷ ms) = if m == n then true else is_member n ms

abbrev pub signal_count : ℕ
signal_count = 32

abbrev pub sigkill : ℕ
sigkill = 9

abbrev pub sigstop : ℕ
sigstop = 19

-- `1 << sig` of an int as 64 bits: bit 31 is the sign, which goes up to bit 63.
unfoldable pub signal_bit : ℕ → ℕ
signal_bit sig = if sig == 31 then 2 ^ 64 - 2 ^ 31 else 2 ^ sig

unfoldable pub blocks : ℕ → ℕ → Bool
unfolding signal_bit
blocks mask sig = not (bit_and mask (signal_bit sig) == 0)

-- SA_RESETHAND is bit 2 and SA_NODEFER bit 4.
unfoldable pub has_flag : SignalAction → ℕ → Bool
unfolding digit
has_flag action bit = digit action.flags bit == 1

unfoldable pub is_idle : Option ℕ → Bool
is_idle none = true
is_idle (some sig) = false

unfoldable pub disposition : SignalProcess → ℕ → Run SignalAction
disposition p sig = elim (get_elem? p.signal_dispositions sig) [
  | none ↦ fault out_of_bounds
  | some action ↦ ok action
]

unfoldable pub create_default_signal_dispositions : List SignalAction
create_default_signal_dispositions =
    replicate signal_count (record { handler = 0; mask = 0; flags = 0; restorer = 0 })

unfoldable pub pid_of : Signals → ℕ → ℕ
pid_of s t = (s.sched.tasks t).pid

-- The end of `send_signal_to_task` and `kill_all_tasks`.
unfoldable pub interrupt_task : Signals → ℕ → Signals
unfolding update is_waiting unblock_task
interrupt_task s t =
    let task = s.sched.tasks t in
    record s {
      threads = update s.threads t (record (s.threads t) { signal_interrupted = true });
      sched =
          if task.signal_interruptible && is_waiting task.state
          then unblock_task s.sched t
          else s.sched;
    }

-- The mask while a signal is handled, in `send_signal_to_task`.
unfoldable pub handling_mask : ℕ → ℕ → SignalAction → ℕ
unfolding signal_bit has_flag
handling_mask mask sig action =
    bit_or mask (bit_or action.mask (if has_flag action 4 then 0 else signal_bit sig))

-- Whether the word `n` is the stack segment of a user: a read behind the stack is a fault.
unfoldable pub is_user_ss : List ℕ → ℕ → Run Bool
is_user_ss words n = elim (get_elem? words n) [
  | none ↦ fault out_of_bounds
  | some word ↦ ok (word == 0x23)
]

-- `get_task_interrupt_regs`: the place of the code segment in the frame of the user, the first word 0x1B
-- whose third next is 0x23. The loop does not stop at the end of the stack.
unfoldable pub get_task_interrupt_regs : List ℕ → Run ℕ
unfolding is_user_ss
get_task_interrupt_regs [] = fault out_of_bounds
get_task_interrupt_regs (word ∷ words) =
    let rest = get_task_interrupt_regs words >>= λ k. ok (suc k) in
    if word == 0x1B then is_user_ss words 2 >>= (λ user. if user then ok 0 else rest) else rest

-- A signal becomes the current one of a task, under a mask, and its handler is prepared in the frame.
unfoldable pub begin_signal : Signals → ℕ → SignalInfo → ℕ → Run Signals
unfolding update get_task_interrupt_regs
begin_signal s t info mask =
    let thread = record (s.threads t) {
      current_sig = some info.sig;
      old_sig_mask = (s.threads t).sig_mask;
      sig_mask = mask;
    } in
    get_task_interrupt_regs (s.threads t).stack >>= λ k.
    ok (record s { threads = update s.threads t thread; prepared = (t, info) ∷ s.prepared })

-- The handler is the default one again if that is asked for.
unfoldable pub reset_handler : Signals → ℕ → ℕ → SignalAction → Signals
unfolding update has_flag
reset_handler s pid sig action =
    let p = s.processes pid in
    let reset = record p {
      signal_dispositions = set p.signal_dispositions sig (record action { handler = 0 });
    } in
    if has_flag action 2 then record s { processes = update s.processes pid reset } else s

unfoldable pub send_signal_to_task : Signals → ℕ → SignalInfo → Run Signals
unfolding is_idle disposition handling_mask begin_signal reset_handler interrupt_task pid_of
send_signal_to_task s t info =
    if is_idle (s.threads t).current_sig
    then (disposition (s.processes (pid_of s t)) info.sig >>= λ action.
        let mask = handling_mask (s.threads t).sig_mask info.sig action in
        begin_signal s t info mask >>= λ begun.
        ok (interrupt_task (reset_handler begun (pid_of s t) info.sig action) t))
    else fault assertion_failed
