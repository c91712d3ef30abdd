-- ===== src/Threading/Signals/Next.antt =====
-- The signals that wait for the current task, kernel/threading/scheduler.cpp.
use influx.Base.{
  ℕ, ◌+◌, ◌-◌, ltb, length, ◌*◌, ◌%◌, ◌^◌, false, not, List, [], ◌∷◌, Option, none, some, ◌==◌,
  if◌then◌else◌,
}
use influx.Base.Run.{Run, ok, fault, ◌>>=◌, assertion_failed}
use Prim.Native.Nat.{bit_or}
use influx.Threading.Scheduler.{put}
use influx.Threading.Signals.{
  SignalInfo, SignalProcess, Signals, update, blocks, is_idle, disposition, pid_of, begin_signal,
}

-- The first words of an entry of 17 words are those of the next one. Only the padding is behind word 8.
unfoldable pub mix : ℕ → SignalInfo → SignalInfo → SignalInfo
mix n a b = record {
  sig = if ltb 0 n then b.sig else a.sig;
  error = if ltb 1 n then b.error else a.error;
  code = if ltb 2 n then b.code else a.code;
  pid = if ltb 3 n then b.pid else a.pid;
  uid = if ltb 4 n then b.uid else a.uid;
  status = if ltb 5 n then b.status else a.status;
  addr = if ltb 6 n then b.addr else a.addr;
  value_int = if ltb 7 n then b.value_int else a.value_int;
  value_ptr = if ltb 8 n then b.value_ptr else a.value_ptr;
}

-- `n` words move to the front by one entry, and the last entry goes.
unfoldable pub shift_words : ℕ → SignalInfo → List SignalInfo → List SignalInfo
unfolding mix
shift_words n info [] = []
shift_words n info (next ∷ infos) = mix n info next ∷ shift_words (n - 17) next infos

-- `erase` of a vector at an entry, with the entries behind it: it moves the size of a pointer, a word, for
-- each of them and not the entry.
unfoldable pub erase : SignalInfo → List SignalInfo → List SignalInfo
unfolding shift_words
erase info infos = shift_words (length infos) info infos

-- The first signal that the mask lets through, and the queue without it.
unfoldable pub take_unblocked : ℕ → List SignalInfo → Option (SignalInfo × List SignalInfo)
unfolding blocks erase
take_unblocked mask [] = none
take_unblocked mask (info ∷ infos) =
    if not (blocks mask info.sig)
    then some (info, erase info infos)
    else elim (take_unblocked mask infos) [
      | none ↦ none
      | some (found, rest) ↦ some (found, info ∷ rest)
    ]

-- From the queue of the task, then from that of its process.
unfoldable pub get_next_signal_info : Signals → Signals × Option SignalInfo
unfolding take_unblocked update pid_of
get_next_signal_info s =
    let t = s.sched.current_task in
    let pid = pid_of s t in
    let thread = s.threads t in
    let p = s.processes pid in
    elim (take_unblocked thread.sig_mask thread.sig_queue) [
      | some (info, rest) ↦ (
        record s { threads = update s.threads t (record thread { sig_queue = rest }) },
        some info,
      )
      | none ↦ elim (take_unblocked thread.sig_mask p.pending_std_signals) [
        | some (info, rest) ↦ (
          record s { processes = update s.processes pid (record p { pending_std_signals = rest }) },
          some info,
        )
        | none ↦ (s, none)
      ]
    ]

-- The handler of a found signal is prepared for the current task.
unfoldable pub begin_next : Signals × Option SignalInfo → Run Signals
unfolding disposition begin_signal pid_of
begin_next (s, none) = ok s
begin_next (s, some info) =
    disposition (s.processes (pid_of s s.sched.current_task)) info.sig >>= λ action.
    let mask = (s.threads s.sched.current_task).sig_mask in
    begin_signal s s.sched.current_task info (bit_or mask action.mask)

-- What `handle_signal_return` and `set_signal_mask` do with the next signal.
unfoldable pub handle_next : Signals → Run Signals
unfolding get_next_signal_info begin_next
handle_next s = begin_next (get_next_signal_info s)

-- The task as it is when its handler is done.
unfoldable pub end_signal : Signals → Signals
unfolding update put
end_signal s =
    let t = s.sched.current_task in
    let sched = s.sched in
    let thread = record (s.threads t) {
      current_sig = none;
      sig_mask = (s.threads t).old_sig_mask;
      signal_interrupted = false;
    } in
    record s {
      threads = update s.threads t thread;
      sched = record sched {
        tasks = put sched.tasks t (record (sched.tasks t) { signal_interruptible = false });
      };
    }

unfoldable pub handle_signal_return : Signals → Run Signals
unfolding is_idle end_signal handle_next
handle_signal_return s =
    if is_idle (s.threads s.sched.current_task).current_sig
    then fault assertion_failed
    else handle_next (end_signal s)

unfoldable pub get_signal_mask : Signals → ℕ
get_signal_mask s = (s.threads s.sched.current_task).sig_mask

unfoldable pub set_signal_mask : Signals → ℕ → Run Signals
unfolding is_idle update handle_next
set_signal_mask s mask =
    let t = s.sched.current_task in
    let s' = record s { threads = update s.threads t (record (s.threads t) { sig_mask = mask }) } in
    if is_idle (s.threads t).current_sig then handle_next s' else ok s'

-- The status of a process that ended, as 16 bits.
unfoldable pub create_wait_status : SignalProcess → Run ℕ
create_wait_status p =
    if not p.terminated
    then fault assertion_failed
    else if p.exit_code == 1
    then ok (p.exit_status * 2 ^ 8 % 2 ^ 16)
    else if p.exit_code == 2
    then ok (p.exit_status % 2 ^ 16)
    else if p.exit_code == 5
    then ok ((127 + p.exit_status * 2 ^ 8) % 2 ^ 16)
    else ok 0
