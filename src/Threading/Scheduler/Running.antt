-- ===== src/Threading/Scheduler/Running.antt =====
-- Which tasks of kernel/threading/scheduler.cpp are running, before and after `reschedule`.
use influx.Base.{
  ℕ, ◌≡◌, refl, sym, ap, ◌∙◌, true, false, Option, none, some, ◌==◌, if◌then◌else◌, arith,
  Bool-cases, inl, inr, ==_iff,
}
use influx.Base.Run.{ok}
use influx.Threading.Scheduler.{
  ThreadState, ready, Task, Scheduler, is_running, put, elect, hand_over, reschedule,
  priority_levels,
}
use influx.Threading.Scheduler.Turn.{AllWait, Chooses, get_next_task-Chooses}

-- The current task is the only one that may be running.
abbrev pub OnlyCurrent : Scheduler → Type 0
OnlyCurrent s = (t : ℕ) → is_running (s.tasks t).state ≡ true → t ≡ s.current_task

rest-not_running :
    (state : ThreadState) → is_running (if is_running state then ready else state) ≡ false
unfolding is_running
rest-not_running state = elim (Bool-cases (is_running state)) [ inl h ↦ rw h refl | inr h ↦ rw h h ]

hand_over-runs :
    (s : Scheduler) (next : ℕ) → is_running ((hand_over s next).tasks next).state ≡ true
unfolding hand_over put is_running
hand_over-runs s next = let here : (next == next) ≡ true = (==_iff next next).1 refl in rw here refl

hand_over-OnlyCurrent : (s : Scheduler) (next : ℕ) → OnlyCurrent s → OnlyCurrent (hand_over s next)
unfolding hand_over put
hand_over-OnlyCurrent s next only t h = elim (Bool-cases (t == next)) [
  | inl new ↦ (==_iff t next).0 new
  | inr other ↦ elim (Bool-cases (t == s.current_task)) [
    | inl old ↦
        let still : is_running (
              if is_running (s.tasks s.current_task).state
              then ready
              else (s.tasks s.current_task).state)
            ≡ true =
          rw (other, old) at h in
        cc (rest-not_running (s.tasks s.current_task).state)
    | inr off ↦
        let runs : is_running (s.tasks t).state ≡ true = rw (other, off) at h in
        let same = only t runs in absurd (ground (arith, same))
  ]
]

-- What the choice of a task leaves of the tasks.
Chooses-tasks :
    (p : ℕ) (s : Scheduler) (w : AllWait s) (s' : Scheduler) (r : Option ℕ)
    → Chooses p s w s' r
    → (s'.tasks ≡ s.tasks) × (s'.current_task ≡ s.current_task)
Chooses-tasks p s w s' none (kept, empty) =
    (ap (λ (q : Scheduler). q.tasks) kept, ap (λ (q : Scheduler). q.current_task) kept)
Chooses-tasks p s w s' (some c) (i, chosen, low, empty, (next, e, is_turn)) =
    (ap (λ (q : Scheduler). q.tasks) e, ap (λ (q : Scheduler). q.current_task) e)

-- If every queue with a next task has it on its ring, and only the current task may be running, then
-- `reschedule` ends without a fault: the queues choose by priority, the current task becomes the
-- elected one, it is running, and no other task is.
pub reschedule-OnlyCurrent :
    (s : Scheduler) (w : AllWait s)
    → OnlyCurrent s
    → (s₁ s₂ : Scheduler) × (r : Option ℕ) × (reschedule s ≡ ok s₂)
      × Chooses priority_levels s w s₁ r
      × (s₂.current_task ≡ elect s₁ r)
      × OnlyCurrent s₂
      × (is_running (s₂.tasks s₂.current_task).state ≡ true)
unfolding reschedule
reschedule-OnlyCurrent s w only =
    let (s₁, r, run, chooses) = get_next_task-Chooses s w in
    let (tasks, current) = Chooses-tasks priority_levels s w s₁ r chooses in
    let kept : OnlyCurrent s₁ =
      λ t h. only t (ap (λ (f : ℕ → Task). is_running (f t).state) (sym tasks) ∙ h) ∙ sym current in
    (
      s₁,
      hand_over s₁ (elect s₁ r),
      r,
      rw run refl,
      chooses,
      unfold hand_over in refl,
      hand_over-OnlyCurrent s₁ (elect s₁ r) kept,
      hand_over-runs s₁ (elect s₁ r),
    )
