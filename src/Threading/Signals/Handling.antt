-- ===== src/Threading/Signals/Handling.antt =====
-- What `send_signal_to_task` of kernel/threading/scheduler.cpp prepares for a task.
use influx.Base.{
  ℕ, zero, suc, ◌≡◌, refl, ap, ◌∙◌, true, false, Bool-cases, ◌∷◌, some, ◌==◌, ==_iff, arith, ◌⊎◌,
  inl, inr,
}
use influx.Base.Run.{ok}
use influx.Base.Bits.{digit, digit-bit_and, digit-bit_or, digit-pow_self, digit-lt}
use Prim.Native.Nat.{bit_and, bit_or}
use influx.Threading.Signals.{
  get_task_interrupt_regs, SignalInfo, SignalAction, SignalThread, Signals, update, signal_bit,
  blocks, has_flag, is_idle, disposition, pid_of, interrupt_task, handling_mask, begin_signal,
  reset_handler, send_signal_to_task,
}

digit-signal_bit : (sig : ℕ) → digit (signal_bit sig) sig ≡ 1
unfolding signal_bit
digit-signal_bit sig = elim (Bool-cases (sig == 31)) [
  | inl top ↦ let e : sig ≡ 31 = (==_iff sig 31).0 top in rw top (rw e (unfold digit in refl))
  | inr low ↦ rw low (digit-pow_self sig)
]

digit_none : (t : ℕ) → digit 0 t ≡ 0
unfolding digit
digit_none zero = refl
digit_none (suc t) = digit_none t

-- A mask that has the bit of a signal blocks it.
blocks_lem : (mask sig : ℕ) → digit mask sig ≡ 1 → blocks mask sig ≡ true
unfolding blocks
blocks_lem mask sig h =
    let both = digit-bit_and mask (signal_bit sig) sig in
    let bit = digit-signal_bit sig in
    elim (Bool-cases (bit_and mask (signal_bit sig) == 0)) [
      | inr e ↦ rw (blocks, e) refl
      | inl e ↦
          let empty : bit_and mask (signal_bit sig) ≡ 0 =
            (==_iff (bit_and mask (signal_bit sig)) 0).0 e in
          absurd (omega (arith, both, bit, h, ap (λ x. digit x sig) empty, digit_none sig))
    ]

handling_mask-blocks :
    (mask sig : ℕ) (action : SignalAction)
    → has_flag action 4 ≡ false
    → blocks (handling_mask mask sig action) sig ≡ true
unfolding handling_mask
handling_mask-blocks mask sig action defer =
    let inner = digit-bit_or action.mask (signal_bit sig) sig in
    let outer = digit-bit_or mask (bit_or action.mask (signal_bit sig)) sig in
    let low = digit-lt mask sig in
    let low' = digit-lt action.mask sig in
    rw (handling_mask, defer)
      (blocks_lem (bit_or mask (bit_or action.mask (signal_bit sig))) sig
        (omega (arith, inner, outer, low, low', digit-signal_bit sig)))

-- The task handles the signal, which is blocked meanwhile unless SA_NODEFER is set.
pub record Handles (s s' : Signals) (u : ℕ) (info : SignalInfo) (action : SignalAction)
    : Type 0 where
  pub prepared : s'.prepared ≡ (u, info) ∷ s.prepared
  pub current : (s'.threads u).current_sig ≡ some info.sig
  pub kept_mask : (s'.threads u).old_sig_mask ≡ (s.threads u).sig_mask
  pub blocked : (has_flag action 4 ≡ true) ⊎ (blocks (s'.threads u).sig_mask info.sig ≡ true)

interrupted-prepared : (s : Signals) (t : ℕ) → (interrupt_task s t).prepared ≡ s.prepared
unfolding interrupt_task
interrupted-prepared s t = refl

interrupted-thread :
    (s : Signals) (t : ℕ)
    → (interrupt_task s t).threads t ≡ record (s.threads t) { signal_interrupted = true }
unfolding interrupt_task update
interrupted-thread s t = ground arith

reset-kept :
    (s : Signals) (pid sig : ℕ) (action : SignalAction)
    → ((reset_handler s pid sig action).threads ≡ s.threads)
      × ((reset_handler s pid sig action).prepared ≡ s.prepared)
unfolding reset_handler
reset-kept s pid sig action = elim (Bool-cases (has_flag action 2)) [
  | inl e ↦ (rw (reset_handler, e) refl, rw (reset_handler, e) refl)
  | inr e ↦ (rw (reset_handler, e) refl, rw (reset_handler, e) refl)
]

-- The thread of a task that handles a signal under a mask.
abbrev begun_thread : SignalThread → SignalInfo → ℕ → SignalThread
begun_thread thread info mask = record thread {
  current_sig = some info.sig;
  old_sig_mask = thread.sig_mask;
  sig_mask = mask;
}

begin_signal_lem :
    (s : Signals) (t : ℕ) (info : SignalInfo) (mask k : ℕ)
    → get_task_interrupt_regs (s.threads t).stack ≡ ok k
    → (begun : Signals) × (begin_signal s t info mask ≡ ok begun)
      × (begun.threads t ≡ begun_thread (s.threads t) info mask)
      × (begun.prepared ≡ (t, info) ∷ s.prepared)
unfolding begin_signal update
begin_signal_lem s t info mask k framed =
    let thread = begun_thread (s.threads t) info mask in
    (
      record s { threads = update s.threads t thread; prepared = (t, info) ∷ s.prepared },
      rw (begin_signal, framed) refl,
      ground arith,
      refl,
    )

pub send_signal_to_task-Handles :
    (s : Signals) (t : ℕ) (info : SignalInfo) (action : SignalAction)
    → is_idle (s.threads t).current_sig ≡ true
    → disposition (s.processes (pid_of s t)) info.sig ≡ ok action
    → (k : ℕ) → get_task_interrupt_regs (s.threads t).stack ≡ ok k
    → (s' : Signals) × (send_signal_to_task s t info ≡ ok s') × Handles s s' t info action
unfolding send_signal_to_task
send_signal_to_task-Handles s t info action idle found k framed =
    let mask = handling_mask (s.threads t).sig_mask info.sig action in
    let (begun, begins, started, listed) = begin_signal_lem s t info mask k framed in
    let reset = reset_handler begun (pid_of s t) info.sig action in
    let (threads, prepared) = reset-kept begun (pid_of s t) info.sig action in
    let at_reset = ap (λ f. f t) threads ∙ started in
    let thread = interrupted-thread reset t in
    (
      interrupt_task reset t,
      rw (send_signal_to_task, idle) (rw found (rw begins refl)),
      record {
        prepared = interrupted-prepared reset t ∙ prepared ∙ listed;
        current = ap SignalThread.current_sig thread ∙ ap SignalThread.current_sig at_reset;
        kept_mask = ap SignalThread.old_sig_mask thread ∙ ap SignalThread.old_sig_mask at_reset;
        blocked = elim (Bool-cases (has_flag action 4)) [
          | inl no_defer ↦ inl no_defer
          | inr defer ↦ inr (
              ap (λ x. blocks (SignalThread.sig_mask x) info.sig) thread
              ∙ ap (λ x. blocks (SignalThread.sig_mask x) info.sig) at_reset
              ∙ handling_mask-blocks (s.threads t).sig_mask info.sig action defer)
        ];
      },
    )
