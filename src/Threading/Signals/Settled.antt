-- ===== src/Threading/Signals/Settled.antt =====
-- What waits for a task that handles no signal, kernel/threading/scheduler.cpp.
use influx.Base.{
  ℕ, zero, suc, ◌<◌, ◌≡◌, refl, ap, ◌∙◌, true, false, Bool-cases, List, [], ◌∷◌, Option, none, some,
  length, get_elem?, arith, ◌⊎◌, inl, inr,
}
use influx.Base.Run.{ok}
use mathlib.Core.Path.{subst}
use Prim.Native.Nat.{bit_or}
use influx.Threading.Scheduler.{Scheduler, put}
use influx.Threading.Signals.{
  get_task_interrupt_regs, SignalInfo, SignalAction, SignalThread, SignalProcess, Signals, update,
  signal_count, blocks, is_idle, disposition, pid_of, begin_signal,
}
use influx.Threading.Signals.Next.{
  erase, take_unblocked, get_next_signal_info, begin_next, handle_next, end_signal,
  handle_signal_return, set_signal_mask,
}

abbrev pub AllBlocked : ℕ → List SignalInfo → Type 0
AllBlocked mask [] = Unit
AllBlocked mask (info ∷ infos) = (blocks mask info.sig ≡ true) × AllBlocked mask infos

abbrev pub AllStandard : List SignalInfo → Type 0
AllStandard [] = Unit
AllStandard (info ∷ infos) = (info.sig < signal_count) × AllStandard infos

-- The first signal of a queue that the mask lets through.
abbrev pub IsFirst : ℕ → SignalInfo → List SignalInfo → Type 0
IsFirst mask found [] = ⊥
IsFirst mask found (info ∷ infos) =
    ((blocks mask info.sig ≡ false) × (found ≡ info))
    ⊎ ((blocks mask info.sig ≡ true) × IsFirst mask found infos)

-- The first of the task's own queue, or of that of its process if all of its own are blocked.
abbrev pub IsNext : ℕ → SignalInfo → List SignalInfo → List SignalInfo → Type 0
IsNext mask found own pending =
    IsFirst mask found own ⊎ (AllBlocked mask own × IsFirst mask found pending)

take_unblocked_cases :
    (mask : ℕ) (infos : List SignalInfo)
    → AllStandard infos
    → ((take_unblocked mask infos ≡ none) × AllBlocked mask infos)
      ⊎ ((found : SignalInfo) × (rest : List SignalInfo) × (take_unblocked mask infos
            ≡ some (found, rest))
          × IsFirst mask found infos
          × (found.sig < signal_count))
unfolding take_unblocked
take_unblocked_cases mask [] h = inl (refl, tt)
take_unblocked_cases mask (info ∷ infos) h = elim (Bool-cases (blocks mask info.sig)) [
  | inr open_ ↦ inr (info, erase info infos, rw open_ refl, inl (open_, refl), h.0)
  | inl shut ↦ elim (take_unblocked_cases mask infos h.1) [
    | inl (e, all) ↦ inl (rw shut (rw e refl), (shut, all))
    | inr (found, rest, e, first, small) ↦
        inr (found, info ∷ rest, rw shut (rw e refl), inr (shut, first), small)
  ]
]

-- What is left of the signals that waited for a task under a mask, its own and those of its process: the
-- task handles the next of them, which came first; or all are blocked, and it handles none.
pub data Settled (t mask : ℕ) (own pending : List SignalInfo) (prepared : List (ℕ × SignalInfo))
    (s : Signals) : Type 0 where
  handles :
      (found : SignalInfo)
      → IsNext mask found own pending
      → s.prepared ≡ (t, found) ∷ prepared
      → (s.threads t).current_sig ≡ some found.sig
      → (s.threads t).old_sig_mask ≡ mask
      → Settled t mask own pending prepared s
  settled :
      AllBlocked mask own
      → AllBlocked mask pending
      → s.prepared ≡ prepared
      → (s.threads t).current_sig ≡ none
      → (s.threads t).sig_mask ≡ mask
      → Settled t mask own pending prepared s

-- The same for the current task of a state, with the signals that wait in it.
abbrev pub SettledFrom : Signals → ℕ → Signals → Type 0
SettledFrom s mask s' =
    Settled s.sched.current_task mask (s.threads s.sched.current_task).sig_queue
      (s.processes (pid_of s s.sched.current_task)).pending_std_signals s.prepared s'

-- The process of the current task has its 32 dispositions, the waiting signals have one,
-- and the frame of the user is on the kernel stack of the task.
pub record Standard (s : Signals) : Type 0 where
  pub dispositions :
      length (s.processes (pid_of s s.sched.current_task)).signal_dispositions ≡ signal_count
  pub queued : AllStandard (s.threads s.sched.current_task).sig_queue
  pub framed : (k : ℕ) × (get_task_interrupt_regs (s.threads s.sched.current_task).stack ≡ ok k)
  pub pending : AllStandard (s.processes (pid_of s s.sched.current_task)).pending_std_signals

get_elem?-some :
    {A : Type 0} (xs : List A) (k : ℕ) → k < length xs → (a : A) × (get_elem? xs k ≡ some a)
get_elem?-some [] k h = absurd (omega arith)
get_elem?-some (x ∷ xs) zero h = (x, refl)
get_elem?-some (x ∷ xs) (suc k) h = get_elem?-some xs k (omega arith)

disposition_lem :
    (p : SignalProcess) (sig : ℕ)
    → sig < length p.signal_dispositions
    → (action : SignalAction) × (disposition p sig ≡ ok action)
unfolding disposition
disposition_lem p sig h =
    let (action, e) = get_elem?-some p.signal_dispositions sig h in
    (action, rw (disposition, e) refl)

update_self : {A : Type 0} (f : ℕ → A) (k : ℕ) (a : A) → update f k a k ≡ a
unfolding update
update_self f k a = ground arith

-- A signal taken from a queue of the current task or of its process.
record Taken (s s' : Signals) (found : SignalInfo) : Type 0 where
  same_sched : s'.sched ≡ s.sched
  same_prepared : s'.prepared ≡ s.prepared
  same_mask : (s'.threads s.sched.current_task).sig_mask ≡ (s.threads s.sched.current_task).sig_mask
  same_stack : (s'.threads s.sched.current_task).stack ≡ (s.threads s.sched.current_task).stack
  dispositions :
      length (s'.processes (pid_of s s.sched.current_task)).signal_dispositions ≡ signal_count
  next :
      IsNext
        (s.threads s.sched.current_task).sig_mask
        found
        (s.threads s.sched.current_task).sig_queue
        (s.processes (pid_of s s.sched.current_task)).pending_std_signals
  small : found.sig < signal_count

get_next_signal_info_cases :
    (s : Signals)
    → Standard s
    → ((get_next_signal_info s ≡ (s, none))
        × AllBlocked
            (s.threads s.sched.current_task).sig_mask
            (s.threads s.sched.current_task).sig_queue
        × AllBlocked
            (s.threads s.sched.current_task).sig_mask
            (s.processes (pid_of s s.sched.current_task)).pending_std_signals)
      ⊎ ((s' : Signals) × (found : SignalInfo) × (get_next_signal_info s ≡ (s', some found))
          × Taken s s' found)
unfolding get_next_signal_info update
get_next_signal_info_cases s v =
    let t = s.sched.current_task in
    let p = s.processes (pid_of s t) in
    let mask = (s.threads t).sig_mask in
    elim (take_unblocked_cases mask (s.threads t).sig_queue v.queued) [
      | inr (found, rest, e, first, small) ↦
          let thread : SignalThread = record (s.threads t) { sig_queue = rest } in
          inr (
            record s { threads = update s.threads t thread },
            found,
            rw (get_next_signal_info, e) refl,
            record {
              same_sched = refl;
              same_prepared = refl;
              same_mask = ap SignalThread.sig_mask (update_self s.threads t thread);
              same_stack = ap SignalThread.stack (update_self s.threads t thread);
              dispositions = v.dispositions;
              next = inl first;
              small = small;
            },
          )
      | inl (e, all) ↦ elim (take_unblocked_cases mask p.pending_std_signals v.pending) [
        | inl (e', all') ↦ inl (rw (get_next_signal_info, e) (rw e' refl), all, all')
        | inr (found, rest, e', first, small) ↦
            let left : SignalProcess = record p { pending_std_signals = rest } in
            inr (
              record s { processes = update s.processes (pid_of s t) left },
              found,
              rw (get_next_signal_info, e) (rw e' refl),
              record {
                same_sched = refl;
                same_prepared = refl;
                same_mask = refl;
                same_stack = refl;
                dispositions =
                    ap (λ q. length (SignalProcess.signal_dispositions q))
                      (update_self s.processes (pid_of s t) left)
                    ∙ v.dispositions;
                next = inr (all, first);
                small = small;
              },
            )
      ]
    ]

-- The task handles a signal then.
record Begun (s s' : Signals) (t : ℕ) (info : SignalInfo) : Type 0 where
  prepared : s'.prepared ≡ (t, info) ∷ s.prepared
  current : (s'.threads t).current_sig ≡ some info.sig
  kept_mask : (s'.threads t).old_sig_mask ≡ (s.threads t).sig_mask

begin_signal-Begun :
    (s : Signals) (t : ℕ) (info : SignalInfo) (mask k : ℕ)
    → get_task_interrupt_regs (s.threads t).stack ≡ ok k
    → (s' : Signals) × (begin_signal s t info mask ≡ ok s') × Begun s s' t info
unfolding begin_signal
begin_signal-Begun s t info mask k framed =
    let thread : SignalThread = record (s.threads t) {
      current_sig = some info.sig;
      old_sig_mask = (s.threads t).sig_mask;
      sig_mask = mask;
    } in
    let at = update_self s.threads t thread in
    (
      record s { threads = update s.threads t thread; prepared = (t, info) ∷ s.prepared },
      rw (begin_signal, framed) refl,
      record {
        prepared = refl;
        current = ap SignalThread.current_sig at;
        kept_mask = ap SignalThread.old_sig_mask at;
      },
    )

begin_next-Begun :
    (s : Signals) (info : SignalInfo) (k : ℕ)
    → length (s.processes (pid_of s s.sched.current_task)).signal_dispositions ≡ signal_count
    → info.sig < signal_count
    → get_task_interrupt_regs (s.threads s.sched.current_task).stack ≡ ok k
    → (s' : Signals) × (begin_next (s, some info) ≡ ok s') × Begun s s' s.sched.current_task info
unfolding begin_next
begin_next-Begun s info k count small framed =
    let (action, e) =
      disposition_lem (s.processes (pid_of s s.sched.current_task)) info.sig (omega arith) in
    let mask = bit_or (s.threads s.sched.current_task).sig_mask action.mask in
    let (s', run, begun) = begin_signal-Begun s s.sched.current_task info mask k framed in
    (s', rw e run, begun)

handle_next-Settled :
    (s : Signals)
    → Standard s
    → (s.threads s.sched.current_task).current_sig ≡ none
    → (s' : Signals) × (handle_next s ≡ ok s')
      × SettledFrom s (s.threads s.sched.current_task).sig_mask s'
unfolding handle_next
handle_next-Settled s v idle = elim (get_next_signal_info_cases s v) [
  | inl (e, own, pending) ↦
      (s, ap begin_next e ∙ (unfold begin_next in refl), settled own pending refl idle refl)
  | inr (s', found, e, taken) ↦
      let same = taken.same_sched in
      let t = s.sched.current_task in
      let count : length (s'.processes (pid_of s' s'.sched.current_task)).signal_dispositions
          ≡ signal_count =
        unfold pid_of in (rw same taken.dispositions) in
      let (k, framed) = v.framed in
      let on_stack : get_task_interrupt_regs (s'.threads s'.sched.current_task).stack ≡ ok k =
        rw same (rw (taken.same_stack) framed) in
      let (s₂, run, begun) = begin_next-Begun s' found k count taken.small on_stack in
      let at_t : Begun s' s₂ t found =
        subst (λ (x : Scheduler). Begun s' s₂ x.current_task found) same begun in
      (
        s₂,
        ap begin_next e ∙ run,
        handles found taken.next (at_t.prepared ∙ ap (◌∷◌ (t, found)) taken.same_prepared)
            at_t.current (at_t.kept_mask ∙ taken.same_mask),
      )
]

-- The current task with other signal state, but the same queue.
Standard-update :
    (s : Signals) (sched : Scheduler) (thread : SignalThread)
    → Standard s
    → sched.current_task ≡ s.sched.current_task
    → (sched.tasks s.sched.current_task).pid ≡ pid_of s s.sched.current_task
    → thread.sig_queue ≡ (s.threads s.sched.current_task).sig_queue
    → thread.stack ≡ (s.threads s.sched.current_task).stack
    → Standard (record s { sched = sched; threads = update s.threads s.sched.current_task thread })
unfolding pid_of
Standard-update s sched thread v same pid queue stack = record {
  framed =
      let (k, framed) = v.framed in
      (
        k,
        rw same (
            rw (ap SignalThread.stack (update_self s.threads s.sched.current_task thread))
              (rw stack framed)),
      );
  dispositions = rw same (rw pid v.dispositions);
  queued = rw same (
      rw (ap SignalThread.sig_queue (update_self s.threads s.sched.current_task thread))
        (rw queue v.queued));
  pending = rw same (rw pid v.pending);
}

-- The same for what the signals that wait lead to.
SettledFrom-update :
    (s : Signals) (sched : Scheduler) (thread : SignalThread)
    → Standard s
    → sched.current_task ≡ s.sched.current_task
    → (sched.tasks s.sched.current_task).pid ≡ pid_of s s.sched.current_task
    → thread.sig_queue ≡ (s.threads s.sched.current_task).sig_queue
    → thread.stack ≡ (s.threads s.sched.current_task).stack
    → thread.current_sig ≡ none
    → (s' : Signals) × (handle_next
          (record s { sched = sched; threads = update s.threads s.sched.current_task thread })
        ≡ ok s')
      × SettledFrom s thread.sig_mask s'
unfolding pid_of
SettledFrom-update s sched thread v same pid queue stack idle =
    let t = s.sched.current_task in
    let at = update_self s.threads t thread in
    let (s', run, end_settled) =
      handle_next-Settled (record s { sched = sched; threads = update s.threads t thread })
        (Standard-update s sched thread v same pid queue stack)
        (rw same (ap SignalThread.current_sig at ∙ idle)) in
    (s', run, rw queue at (rw at at (rw pid at (rw same at end_settled))))

end_signal-Settled :
    (s : Signals)
    → Standard s
    → (s' : Signals) × (handle_next (end_signal s) ≡ ok s')
      × SettledFrom s (s.threads s.sched.current_task).old_sig_mask s'
unfolding end_signal put pid_of
end_signal-Settled s v =
    let t = s.sched.current_task in
    let sched = s.sched in
    let task = record (sched.tasks t) { signal_interruptible = false } in
    let thread : SignalThread = record (s.threads t) {
      current_sig = none;
      sig_mask = (s.threads t).old_sig_mask;
      signal_interrupted = false;
    } in
    SettledFrom-update s (record sched { tasks = put sched.tasks t task }) thread v refl
      (ground arith) refl refl refl

-- If the process of the current task has its 32 dispositions, the waiting signals are below 32, the
-- frame of the user is on the kernel stack and the task handles a signal: the return from the handler
-- ends without a fault under the mask from before the handler. The task then handles the first signal
-- which that mask lets through, of its own or, if it blocks all of these, of those of its process; or
-- the mask blocks all of them, and the task handles none.
pub handle_signal_return-Settled :
    (s : Signals)
    → Standard s
    → is_idle (s.threads s.sched.current_task).current_sig ≡ false
    → (s' : Signals) × (handle_signal_return s ≡ ok s')
      × SettledFrom s (s.threads s.sched.current_task).old_sig_mask s'
unfolding handle_signal_return
handle_signal_return-Settled s v busy =
    let (s', run, end_settled) = end_signal-Settled s v in (s', rw busy run, end_settled)

-- The new mask is set, and a task that handles no signal turns to those that wait.
pub data MaskSet (s : Signals) (mask : ℕ) (s' : Signals) : Type 0 where
  idle :
      (s.threads s.sched.current_task).current_sig ≡ none
      → SettledFrom s mask s'
      → MaskSet s mask s'
  busy :
      is_idle (s.threads s.sched.current_task).current_sig ≡ false
      → (s'.threads s.sched.current_task)
        ≡ record (s.threads s.sched.current_task) { sig_mask = mask }
      → s'.prepared ≡ s.prepared
      → s'.processes ≡ s.processes
      → MaskSet s mask s'

idle_none : (sig : Option ℕ) → is_idle sig ≡ true → sig ≡ none
unfolding is_idle
idle_none none h = refl
idle_none (some sig) h = cc

-- If the process of the current task has its 32 dispositions, the waiting signals are below 32 and the
-- frame of the user is on the kernel stack: a change of the mask ends without a fault. A task that
-- handles no signal then handles the first signal which the new mask lets through, of its own or, if
-- it blocks all of these, of those of its process, or the new mask blocks all of them and the task
-- handles none; a task that handles a signal only has the new mask.
pub set_signal_mask-Settled :
    (s : Signals) (mask : ℕ)
    → Standard s
    → (s' : Signals) × (set_signal_mask s mask ≡ ok s') × MaskSet s mask s'
unfolding set_signal_mask
set_signal_mask-Settled s mask v =
    let t = s.sched.current_task in
    let thread : SignalThread = record (s.threads t) { sig_mask = mask } in
    elim (Bool-cases (is_idle (s.threads t).current_sig)) [
      | inl free ↦
          let none_now = idle_none (s.threads t).current_sig free in
          let (s₂, run, end_settled) =
            SettledFrom-update s s.sched thread v refl (unfold pid_of in refl) refl refl none_now in
          (s₂, rw free run, idle none_now end_settled)
      | inr taken ↦ (
        record s { threads = update s.threads t thread },
        rw taken refl,
        busy taken (update_self s.threads t thread) refl refl,
      )
    ]
