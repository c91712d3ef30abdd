-- ===== src/Threading/Signals/Delivery.antt =====
-- The way of a signal with a handler from a process to a task, kernel/threading/scheduler.cpp.
use influx.Base.{
  ℕ, ◌<◌, ◌≡◌, refl, ap, ◌∙◌, true, false, List, [], ◌∷◌, Option, none, ◌==◌, if◌then◌else◌, inl,
  inr,
}
use influx.Base.Run.{ok}
use influx.Threading.Signals.{SignalInfo, SignalAction, Signals, is_member, disposition}
use influx.Threading.Signals.Send.{
  ring_of, is_free, queue_for_process, send_caught, is_default, send_own, send_signal_to_process,
}
use influx.Threading.Signals.Kill.{send_signal_to_process_lem, send_by_action_lem}
use influx.Threading.Signals.Choice.{Framed, NoneOf, choose_task_cases, free_cases}
use influx.Threading.Signals.Handling.{Handles, send_signal_to_task-Handles}

-- What a signal with a handler does to a process whose tasks are on a ring.
pub data Delivered (s : Signals) (pid : ℕ) (info : SignalInfo) (action : SignalAction)
    (ring : List ℕ) : Signals → Type 0 where
  queued :
      NoneOf (is_free s pid info.sig) ring
      → Delivered s pid info action ring (queue_for_process s pid info)
  handled :
      (s' : Signals) (u : ℕ)
      → is_member u ring ≡ true
      → is_free s pid info.sig u ≡ true
      → Handles s s' u info action
      → Delivered s pid info action ring s'

send_caught-Delivered :
    (s : Signals) (pid t : ℕ) (info : SignalInfo) (action : SignalAction) (ring : List ℕ)
    → is_member t ring ≡ true
    → Framed s pid ring
    → disposition (s.processes pid) info.sig ≡ ok action
    → (s' : Signals) × (send_caught s pid none info ring ≡ ok s')
      × Delivered s pid info action ring s'
unfolding send_caught
send_caught-Delivered s pid t info action [] on framed found =
    let no : false ≡ true = unfold is_member in on in cc
send_caught-Delivered s pid t info action (first ∷ rest) on framed found =
    elim (choose_task_cases s pid info.sig (first ∷ rest)) [
      | inl (chosen, not_free) ↦
          (queue_for_process s pid info, rw (send_caught, chosen) refl, queued not_free)
      | inr (u, chosen, on_u, free) ↦
          let (of_pid, idle) = free_cases s pid info.sig u free in
          let (k, frame) = framed u on_u of_pid in
          let (s', run, handles) =
            send_signal_to_task-Handles s u info action idle (rw of_pid found) k frame in
          (s', rw (send_caught, chosen) run, handled s' u on_u free handles)
    ]

send_own_lem :
    (s : Signals) (pid : ℕ) (tid : Option ℕ) (info : SignalInfo) (action : SignalAction)
    → (action.handler == 1) ≡ false
    → (s.processes pid).terminated ≡ false
    → send_own s pid tid info action ≡ send_caught s pid tid info (ring_of s pid)
unfolding send_own
send_own_lem s pid tid info action caught alive =
    let send = send_caught s pid tid info (ring_of s pid) in
    let pending = ok (queue_for_process s pid info) in
    ap (λ b. if b then ok s else if (s.processes pid).terminated then pending else send) caught
    ∙ ap (λ b. if b then pending else send) alive

-- For a process that is there, is no system process and has not ended, with a task on the ring of its
-- priority and the frame of the user on the kernel stack of each of its tasks there, and a signal with
-- a handler other than the default and SIG_IGN, not SIGKILL nor SIGSTOP: `send_signal_to_process`
-- without a thread ends without a fault. Either no task of the ring is one of the process that handles
-- no signal and does not block this one, and the signal joins the pending ones of the process; or the
-- handler is prepared for such a task, whose current signal it becomes and whose mask is kept, and
-- which blocks the signal from then on unless SA_NODEFER is set.
pub send_signal_to_process-Delivered :
    (s : Signals) (pid t : ℕ) (info : SignalInfo) (action : SignalAction)
    → is_member pid s.pids ≡ true
    → 1 < pid
    → is_member t (ring_of s pid) ≡ true
    → Framed s pid (ring_of s pid)
    → disposition (s.processes pid) info.sig ≡ ok action
    → is_default info.sig action ≡ false
    → (action.handler == 1) ≡ false
    → (s.processes pid).terminated ≡ false
    → (s' : Signals) × (send_signal_to_process s pid none info ≡ ok s')
      × Delivered s pid info action (ring_of s pid) s'
send_signal_to_process-Delivered s pid t info action there big on framed found own caught alive =
    let (s', run, delivered) =
      send_caught-Delivered s pid t info action (ring_of s pid) on framed found in
    (
      s',
      send_signal_to_process_lem s pid none info action there big found
          ∙ send_by_action_lem s pid none info action false own
          ∙ send_own_lem s pid none info action caught alive
          ∙ run,
      delivered,
    )
