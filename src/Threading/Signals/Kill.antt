-- ===== src/Threading/Signals/Kill.antt =====
-- What a kill does, kernel/threading/scheduler.cpp.
use influx.Base.{
  ℕ, ◌<◌, ◌≡◌, refl, sym, ap, ◌∙◌, Bool, true, false, not, ◌&&◌, ◌||◌, Bool-cases, List, [], ◌∷◌,
  Option, some, Option-cases, get_elem?, leb, ◌==◌, ==_iff, if◌then◌else◌, arith, inl, inr,
}
use influx.Base.Run.{Run, ok, fault, ◌>>=◌, assertion_failed}
use mathlib.Core.Path.{subst}
use influx.Threading.Scheduler.{
  ThreadState, ready, Task, Scheduler, put, put_state, no_next, is_next, next_of, priority_of,
  offer, set_next, unblock_task, is_waiting,
}
use influx.Threading.Signals.Choice.{Framed}
use influx.Threading.Signals.{
  get_task_interrupt_regs, update, SignalInfo, SignalAction, Signals, is_member, sigkill,
  disposition, pid_of, interrupt_task,
}
use influx.Threading.Signals.Send.{
  ring_of, end_frame, end_task, end_ring, kill_all_tasks, is_default, ignored_by_default,
  default_signal_handler, kill_with_signal, set_exit, send_own, send_by_action,
  send_signal_to_process,
}

put_state-pid :
    (s : Scheduler) (t u : ℕ) (state : ThreadState)
    → ((put_state s t state).tasks u).pid ≡ (s.tasks u).pid
unfolding put_state put
put_state-pid s t u state = ground arith

set_next-tasks : (s : Scheduler) (p : ℕ) (n : Option ℕ) → (set_next s p n).tasks ≡ s.tasks
unfolding set_next
set_next-tasks s p n = elim (Option-cases (get_elem? s.queues p)) [
  | inl e ↦ rw (set_next, e) refl
  | inr (q, e) ↦ rw (set_next, e) refl
]

offer-tasks : (s : Scheduler) (t : ℕ) → (offer s t).tasks ≡ s.tasks
unfolding offer
offer-tasks s t =
    elim (Bool-cases (
      no_next (next_of s (priority_of s t))
      || is_next (next_of s (priority_of s t)) s.current_task)) [
        | inl e ↦ rw (offer, e) (set_next-tasks s (priority_of s t) (some t))
        | inr e ↦ rw (offer, e) refl
      ]

unblock_task-pid : (s : Scheduler) (t u : ℕ) → ((unblock_task s t).tasks u).pid ≡ (s.tasks u).pid
unfolding unblock_task
unblock_task-pid s t u = elim (Bool-cases (is_waiting (s.tasks t).state)) [
  | inr e ↦ rw (unblock_task, e) refl
  | inl e ↦
      rw (unblock_task, e)
        (ap (λ tasks. Task.pid (tasks u)) (offer-tasks (put_state s t ready) t)
          ∙ put_state-pid s t u ready)
]

interrupt_task-pid : (s : Signals) (t u : ℕ) → pid_of (interrupt_task s t) u ≡ pid_of s u
unfolding interrupt_task pid_of
interrupt_task-pid s t u =
    elim (Bool-cases
      ((s.sched.tasks t).signal_interruptible && is_waiting (s.sched.tasks t).state)) [
        | inl e ↦ rw (interrupt_task, e) (unblock_task-pid s.sched t u)
        | inr e ↦ rw (interrupt_task, e) refl
      ]

member_here : (t : ℕ) (ts : List ℕ) → is_member t (t ∷ ts) ≡ true
unfolding is_member
member_here t ts = ground arith

member_later : (t u : ℕ) (ts : List ℕ) → is_member u ts ≡ true → is_member u (t ∷ ts) ≡ true
unfolding is_member
member_later t u ts h = ground arith

no_way : false ≡ true → ⊥
no_way h = cc

-- No task is on the ring twice.
abbrev pub Distinct : List ℕ → Type 0
Distinct [] = Unit
Distinct (t ∷ ring) = (is_member t ring ≡ false) × Distinct ring

not_member :
    (t u : ℕ) (ring : List ℕ)
    → is_member t ring ≡ false
    → is_member u ring ≡ true
    → (u == t) ≡ false
not_member t u ring out on = elim (Bool-cases (u == t)) [
  | inr differ ↦ differ
  | inl same ↦
      let e : u ≡ t = (==_iff u t).0 same in
      let both : true ≡ false = sym on ∙ ap (λ k. is_member k ring) e ∙ out in cc
]

interrupt_task-stack :
    (s : Signals) (t u : ℕ) → ((interrupt_task s t).threads u).stack ≡ (s.threads u).stack
unfolding interrupt_task update
interrupt_task-stack s t u = ground arith

end_frame-stack :
    (s : Signals) (t k u : ℕ)
    → (u == t) ≡ false
    → ((end_frame s t k).threads u).stack ≡ (s.threads u).stack
unfolding end_frame update
end_frame-stack s t k u other = rw other refl

-- One task that ends.
record EndedTask (s s' : Signals) (t : ℕ) : Type 0 where
  listed : s'.ending ≡ t ∷ s.ending
  same_pid : (u : ℕ) → pid_of s' u ≡ pid_of s u
  same_stack : (u : ℕ) → (u == t) ≡ false → (s'.threads u).stack ≡ (s.threads u).stack

end_task-EndedTask :
    (s : Signals) (t k : ℕ)
    → get_task_interrupt_regs (s.threads t).stack ≡ ok k
    → (s' : Signals) × (end_task s t ≡ ok s') × EndedTask s s' t
unfolding end_task
end_task-EndedTask s t k framed =
    let framed_out = end_frame s t k in
    (
      interrupt_task framed_out t,
      rw (end_task, framed) refl,
      record {
        listed = unfold interrupt_task end_frame in refl;
        same_pid = λ u. interrupt_task-pid framed_out t u ∙ (unfold end_frame pid_of in refl);
        same_stack = λ u other. interrupt_task-stack framed_out t u ∙ end_frame-stack s t k u other;
      },
    )

-- What the loop leaves: the tasks that ended stay on the list, and those of the ring are on it.
record EndedRing (s s' : Signals) (pid : ℕ) (ring : List ℕ) : Type 0 where
  kept : (u : ℕ) → is_member u s.ending ≡ true → is_member u s'.ending ≡ true
  ended : (u : ℕ) → is_member u ring ≡ true → pid_of s u ≡ pid → is_member u s'.ending ≡ true

end_ring-EndedRing :
    (pid : ℕ) (ring : List ℕ) (s : Signals)
    → Distinct ring
    → Framed s pid ring
    → (s' : Signals) × (end_ring pid ring s ≡ ok s') × EndedRing s s' pid ring
unfolding end_ring
end_ring-EndedRing pid [] s distinct framed = (
  s,
  refl,
  record {
    kept = λ u h. h;
    ended = λ u on of_pid. let no : false ≡ true = unfold is_member in on in absurd (no_way no);
  },
)
end_ring-EndedRing pid (t ∷ ring) s distinct framed = elim (Bool-cases (pid_of s t == pid)) [
  | inr other ↦
      let (s', run, ends) =
        end_ring-EndedRing pid ring s distinct.1
          (λ u on of_pid. framed u (member_later t u ring on) of_pid) in
      (
        s',
        rw other run,
        record {
          kept = ends.kept;
          ended = λ u on of_pid. elim (Bool-cases (t == u)) [
            | inl same ↦
                let e = (==_iff t u).0 same in
                let yes : (pid_of s t == pid) ≡ true =
                  (==_iff (pid_of s t) pid).1 (ap (pid_of s) e ∙ of_pid) in
                let both : false ≡ true = sym other ∙ yes in absurd (no_way both)
            | inr differ ↦ ends.ended u (unfold is_member in (rw differ at on)) of_pid
          ];
        },
      )
  | inl own ↦
      let (k, frame) = framed t (member_here t ring) ((==_iff (pid_of s t) pid).0 own) in
      let (s₁, first, ended_t) = end_task-EndedTask s t k frame in
      let (s', run, ends) = end_ring-EndedRing pid ring s₁ distinct.1 (λ u on of_pid.
        let (j, frame_u) =
          framed u (member_later t u ring on) (sym (ended_t.same_pid u) ∙ of_pid) in
        (
          j,
          ap get_task_interrupt_regs (ended_t.same_stack u (not_member t u ring distinct.0 on))
              ∙ frame_u,
        )) in
      (
        s',
        rw (own, first) run,
        record {
          kept = λ u h. ends.kept u (rw (ended_t.listed) (member_later t u s.ending h));
          ended = λ u on of_pid. elim (Bool-cases (t == u)) [
            | inl same ↦
                let e = (==_iff t u).0 same in
                ends.kept u (
                  rw (ended_t.listed)
                    (subst (λ x. is_member x (t ∷ s.ending) ≡ true) e (member_here t s.ending)))
            | inr differ ↦
                ends.ended u (unfold is_member in (rw differ at on)) (ended_t.same_pid u ∙ of_pid)
          ];
        },
      )
]

pub member_cases :
    (t : ℕ) (ring : List ℕ)
    → is_member t ring ≡ true
    → (u : ℕ) × (rest : List ℕ) × (ring ≡ u ∷ rest)
unfolding is_member
member_cases t [] h = cc
member_cases t (u ∷ rest) h = (u, rest, refl)

-- Every task of the process on the ring returns to its end.
pub kill_all_tasks-Ends :
    (s : Signals) (pid t : ℕ)
    → is_member pid s.pids ≡ true
    → is_member t (ring_of s pid) ≡ true
    → Distinct (ring_of s pid)
    → Framed s pid (ring_of s pid)
    → (s' : Signals) × (kill_all_tasks s pid ≡ ok s')
      × ((u : ℕ)
          → is_member u (ring_of s pid) ≡ true
          → pid_of s u ≡ pid
          → is_member u s'.ending ≡ true)
unfolding kill_all_tasks
kill_all_tasks-Ends s pid t there on distinct framed =
    let (first, rest, e) = member_cases t (ring_of s pid) on in
    let (s', run, ends) = end_ring-EndedRing pid (ring_of s pid) s distinct framed in
    (s', rw (kill_all_tasks, there) (rw e (rw e at run)), ends.ended)

default_signal_handler-kills :
    (s : Signals) (pid : ℕ) (info : SignalInfo) (r : Run Signals)
    → ignored_by_default info.sig ≡ false
    → (s.processes pid).terminated ≡ false
    → kill_with_signal s pid info.sig ≡ r
    → default_signal_handler s pid info ≡ r
unfolding default_signal_handler
default_signal_handler-kills s pid info r not_ignored alive run =
    rw (default_signal_handler, not_ignored) (rw alive run)

-- The action of the signal decides, for a process that is there and no system process.
pub send_signal_to_process_lem :
    (s : Signals) (pid : ℕ) (tid : Option ℕ) (info : SignalInfo) (action : SignalAction)
    → is_member pid s.pids ≡ true
    → 1 < pid
    → disposition (s.processes pid) info.sig ≡ ok action
    → send_signal_to_process s pid tid info ≡ send_by_action s pid tid info action
unfolding send_signal_to_process
send_signal_to_process_lem s pid tid info action there big found =
    let above : leb pid 1 ≡ false = ground arith in
    let body = disposition (s.processes pid) info.sig >>= send_by_action s pid tid info in
    ap (λ b. if not b then fault assertion_failed else if leb pid 1 then ok s else body) there
    ∙ ap (λ b. if b then ok s else body) above
    ∙ ap (λ r. r >>= send_by_action s pid tid info) found

pub send_by_action_lem :
    (s : Signals) (pid : ℕ) (tid : Option ℕ) (info : SignalInfo) (action : SignalAction) (b : Bool)
    → is_default info.sig action ≡ b
    → send_by_action s pid tid info action
      ≡ (if b then default_signal_handler s pid info else send_own s pid tid info action)
unfolding send_by_action
send_by_action_lem s pid tid info action b =
    ap (λ c. if c then default_signal_handler s pid info else send_own s pid tid info action)

-- For a process that is there, is no system process and has not ended, and that has an action for
-- SIGKILL, whatever it is, with a task on the ring of its priority, none of which is twice on it, and
-- the frame of the user on the kernel stack of each of its tasks there: SIGKILL ends without a fault,
-- and every task of the process on the ring returns to its end.
pub send_signal_to_process-Kills :
    (s : Signals) (pid t : ℕ) (tid : Option ℕ) (info : SignalInfo) (action : SignalAction)
    → is_member pid s.pids ≡ true
    → 1 < pid
    → is_member t (ring_of s pid) ≡ true
    → Distinct (ring_of s pid)
    → Framed s pid (ring_of s pid)
    → info.sig ≡ sigkill
    → disposition (s.processes pid) info.sig ≡ ok action
    → (s.processes pid).terminated ≡ false
    → (s' : Signals) × (send_signal_to_process s pid tid info ≡ ok s')
      × ((u : ℕ)
          → is_member u (ring_of s pid) ≡ true
          → pid_of s u ≡ pid
          → is_member u s'.ending ≡ true)
send_signal_to_process-Kills s pid t tid info action there big on distinct framed kill found alive =
    let exited = set_exit s pid 2 info.sig in
    let (s', run, all) =
      kill_all_tasks-Ends exited pid t (unfold set_exit in there) (unfold set_exit ring_of in on)
        (unfold set_exit ring_of in distinct) (unfold set_exit ring_of pid_of in framed) in
    let by_default : is_default info.sig action ≡ true = rw kill (unfold is_default in refl) in
    let not_ignored : ignored_by_default info.sig ≡ false =
      rw kill (unfold ignored_by_default in refl) in
    (
      s',
      send_signal_to_process_lem s pid tid info action there big found
          ∙ send_by_action_lem s pid tid info action true by_default
          ∙ default_signal_handler-kills s pid info (ok s') not_ignored alive
              (unfold kill_with_signal in run),
      unfold set_exit ring_of pid_of in all,
    )
