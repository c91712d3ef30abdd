-- ===== src/Threading/Scheduler/Turn.antt =====
-- Which task the queues of kernel/threading/scheduler.cpp choose next.
use influx.Base.{
  ℕ, zero, suc, ◌≤◌, ◌<◌, ◌≡◌, ◌≢◌, refl, ap, ◌∙◌, true, false, List, [], ◌∷◌, ◌++◌, Option, none,
  some, set, get_elem?, ◌==◌, arith, Bool-cases, inl, inr, ◌⊎◌, ==_iff,
}
use influx.Base.Run.{ok}
use native.Mathlib.Decide.{ℕ_discrete}
use influx.Structures.NodeList.{find_node}
use influx.Threading.Scheduler.{
  Task, PriorityQueue, Scheduler, runnable, no_next, next_of, first_runnable, turn,
  update_priority_queue_next_task, get_next_below, get_next_task, priority_levels,
}

-- None of the tasks can be executed.
abbrev pub AllIdle : (ℕ → Task) → List ℕ → Type 0
AllIdle tasks [] = Unit {0}
AllIdle tasks (t ∷ rest) = (runnable (tasks t) ≡ false) × AllIdle tasks rest

-- The first task of the others that can be executed, or else the task itself if it can be.
abbrev pub IsTurn : (ℕ → Task) → ℕ → List ℕ → Option ℕ → Type 0
IsTurn tasks c others none = (runnable (tasks c) ≡ false) × AllIdle tasks others
IsTurn tasks c others (some t) =
    (runnable (tasks t) ≡ true)
    × (((skipped : List ℕ) × (rest : List ℕ) × (others ≡ skipped ++ t ∷ rest)
          × AllIdle tasks skipped)
        ⊎ ((t ≡ c) × AllIdle tasks others))

first_runnable-cases :
    (tasks : ℕ → Task) (others : List ℕ)
    → ((first_runnable tasks others ≡ none) × AllIdle tasks others)
      ⊎ ((t : ℕ) × (skipped : List ℕ) × (rest : List ℕ) × (first_runnable tasks others ≡ some t)
          × (others ≡ skipped ++ t ∷ rest)
          × AllIdle tasks skipped
          × (runnable (tasks t) ≡ true))
unfolding first_runnable
first_runnable-cases tasks [] = inl (refl, tt)
first_runnable-cases tasks (u ∷ others) = elim (Bool-cases (runnable (tasks u))) [
  | inl h ↦ inr (u, [], others, rw h refl, refl, tt, h)
  | inr h ↦ elim (first_runnable-cases tasks others) [
    | inl (e, idle) ↦ inl (rw h e, (h, idle))
    | inr (t, skipped, rest, e, split, idle, can) ↦
        inr (t, u ∷ skipped, rest, rw h e, ap (λ ts. u ∷ ts) split, (h, idle), can)
  ]
]

turn-IsTurn :
    (tasks : ℕ → Task) (c : ℕ) (others : List ℕ) → IsTurn tasks c others (turn tasks c others)
unfolding turn
turn-IsTurn tasks c others = elim (first_runnable-cases tasks others) [
  | inl (e, idle) ↦ elim (Bool-cases (runnable (tasks c))) [
    | inl h ↦ rw (turn, e, h) (h, inr (refl, idle))
    | inr h ↦ rw (turn, e, h) (h, idle)
  ]
  | inr (t, skipped, rest, e, split, idle, can) ↦
      rw (turn, e) (can, inl (skipped, rest, split, idle))
]

abbrev pub NotIn : ℕ → List ℕ → Type 0
NotIn c [] = Unit {0}
NotIn c (t ∷ rest) = (t ≢ c) × NotIn c rest

find_node-NotIn :
    (c : ℕ) (before behind : List ℕ)
    → NotIn c before
    → find_node (λ t. t == c) (before ++ c ∷ behind) ≡ some (before, c, behind)
unfolding find_node
find_node-NotIn c [] behind h = let here : (c == c) ≡ true = (==_iff c c).1 refl in rw here refl
find_node-NotIn c (t ∷ before) behind h =
    let there : (t == c) ≡ false = ground (arith, h.0) in
    rw there (rw (find_node-NotIn c before behind h.1) refl)

-- The queue of priority `p` with its next task, which stands once on the ring.
pub record Waits (s : Scheduler) (p c : ℕ) : Type 0 where
  pub queue : PriorityQueue
  pub before : List ℕ
  pub behind : List ℕ
  pub listed : get_elem? s.queues p ≡ some queue
  pub next : queue.next_task ≡ some c
  pub ring : queue.ring ≡ before ++ c ∷ behind
  pub once : NotIn c before

-- What a turn of the queue leaves behind.
abbrev pub Turns : (s : Scheduler) (p c : ℕ) → Waits s p c → Scheduler → Type 0
Turns s p c w s' =
    (next : Option ℕ) × (s'
      ≡ record s { queues = set s.queues p (record w.queue { next_task = next }) })
    × IsTurn s.tasks c (w.behind ++ w.before) next

-- For a queue whose next task stands on its ring, `update_priority_queue_next_task` ends without a
-- fault and answers that task. The new next task is the first behind it, around the ring, that can be
-- executed, or else the same task if that can be, or else none, and then no task of the ring can be
-- executed; nothing else changes.
pub update_priority_queue_next_task-Turns :
    (s : Scheduler) (p c : ℕ)
    → (w : Waits s p c)
    → (s' : Scheduler) × (update_priority_queue_next_task s p ≡ ok (s', c)) × Turns s p c w s'
unfolding update_priority_queue_next_task
update_priority_queue_next_task-Turns s p c w =
    let next = turn s.tasks c (w.behind ++ w.before) in
    let found = ap (find_node (λ t. t == c)) w.ring ∙ find_node-NotIn c w.before w.behind w.once in
    (
      record s { queues = set s.queues p (record w.queue { next_task = next }) },
      rw (update_priority_queue_next_task, w.listed) (rw w.next (rw found refl)),
      (next, refl, turn-IsTurn s.tasks c (w.behind ++ w.before)),
    )

-- Every queue that has a next task has it once on its ring.
abbrev pub AllWait : Scheduler → Type 0
AllWait s = (p c : ℕ) → next_of s p ≡ some c → Waits s p c

-- No queue below `p` has a next task; or the task is that of the highest one below `p` that has one, and
-- that queue takes its turn.
abbrev pub Chooses : ℕ → (s : Scheduler) → AllWait s → Scheduler → Option ℕ → Type 0
Chooses p s w s' none = (s' ≡ s) × ((j : ℕ) → j < p → next_of s j ≡ none)
Chooses p s w s' (some c) =
    (i : ℕ) × (chosen : next_of s i ≡ some c) × (i < p)
    × ((j : ℕ) → i < j → j < p → next_of s j ≡ none)
    × Turns s i c (w i c chosen) s'

next_of-cases :
    (o : Option ℕ)
    → ((o ≡ none) × (no_next o ≡ true)) ⊎ ((c : ℕ) × (o ≡ some c) × (no_next o ≡ false))
unfolding no_next
next_of-cases none = inl (refl, refl)
next_of-cases (some c) = inr (c, refl, refl)

above :
    (s : Scheduler) (p : ℕ) → next_of s p ≡ none → (j : ℕ) → p ≤ j → j < suc p → next_of s j ≡ none
above s p e j low high = let same : p ≡ j = omega arith in rw same at e

Chooses-suc :
    (p : ℕ) (s : Scheduler) (w : AllWait s) (s' : Scheduler) (r : Option ℕ)
    → next_of s p ≡ none
    → Chooses p s w s' r
    → Chooses (suc p) s w s' r
Chooses-suc p s w s' none e (kept, empty) = (
  kept,
  λ j h. elim (ℕ_discrete j p) [
    | yes same ↦ above s p e j (omega arith) (omega arith)
    | no other ↦ empty j (omega arith)
  ],
)
Chooses-suc p s w s' (some c) e (i, chosen, low, empty, turns) = (
  i,
  chosen,
  omega arith,
  (λ j h k. elim (ℕ_discrete j p) [
    | yes same ↦ above s p e j (omega arith) k
    | no other ↦ empty j h (omega arith)
  ]),
  turns,
)

get_next_below-Chooses :
    (p : ℕ) (s : Scheduler) (w : AllWait s)
    → (s' : Scheduler) × (r : Option ℕ) × (get_next_below s p ≡ ok (s', r)) × Chooses p s w s' r
unfolding get_next_below
get_next_below-Chooses zero s w = (s, none, refl, (refl, λ j h. absurd (omega arith)))
get_next_below-Chooses (suc p) s w = elim (next_of-cases (next_of s p)) [
  | inl (e, skip) ↦
      let (s', r, run, chooses) = get_next_below-Chooses p s w in
      (s', r, rw skip run, Chooses-suc p s w s' r e chooses)
  | inr (c, e, take) ↦
      let (s', run, turns) = update_priority_queue_next_task-Turns s p c (w p c e) in
      (
        s',
        some c,
        rw take (rw run refl),
        (p, e, omega arith, (λ j h k. absurd (omega arith)), turns),
      )
]

-- If every queue with a next task has it on its ring, `get_next_task` ends without a fault: either no
-- queue has a next task, it answers none and changes nothing; or it answers the next task of the queue
-- of the highest priority that has one, and that queue takes its turn.
pub get_next_task-Chooses :
    (s : Scheduler) (w : AllWait s)
    → (s' : Scheduler) × (r : Option ℕ) × (get_next_task s ≡ ok (s', r))
      × Chooses priority_levels s w s' r
unfolding get_next_task
get_next_task-Chooses s w = get_next_below-Chooses priority_levels s w
