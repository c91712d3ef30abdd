-- ===== src/Threading/Signals/Choice.antt =====
-- Which task of a process a signal is sent to, kernel/threading/scheduler.cpp.
use influx.Base.{
  ℕ, ◌≡◌, refl, Bool, true, false, not, ◌&&◌, Bool-cases, List, [], ◌∷◌, none, some, ◌==◌, ==_iff,
  arith, ◌⊎◌, inl, inr,
}
use influx.Base.Run.{ok}
use influx.Threading.Signals.{get_task_interrupt_regs, Signals, is_member, blocks, is_idle, pid_of}
use influx.Threading.Signals.Send.{can_handle, is_main, is_free, find_task, choose_task}

-- The frame of the user is on the kernel stack of each task of the process on the ring.
abbrev pub Framed : Signals → ℕ → List ℕ → Type 0
Framed s pid ring =
    (u : ℕ)
    → is_member u ring ≡ true
    → pid_of s u ≡ pid
    → (k : ℕ) × (get_task_interrupt_regs (s.threads u).stack ≡ ok k)

-- The task found, which is on the ring, or none of the ring will do.
abbrev pub NoneOf : (ℕ → Bool) → List ℕ → Type 0
NoneOf p [] = Unit
NoneOf p (t ∷ ring) = (p t ≡ false) × NoneOf p ring

find_task_cases :
    (p : ℕ → Bool) (ring : List ℕ)
    → ((find_task p ring ≡ none) × NoneOf p ring)
      ⊎ ((u : ℕ) × (find_task p ring ≡ some u) × (is_member u ring ≡ true) × (p u ≡ true))
unfolding find_task is_member
find_task_cases p [] = inl (refl, tt)
find_task_cases p (t ∷ ring) = elim (Bool-cases (p t)) [
  | inl yes_t ↦ inr (t, rw yes_t refl, ground arith, yes_t)
  | inr no_t ↦ elim (find_task_cases p ring) [
    | inl (e, others) ↦ inl (rw no_t e, (no_t, others))
    | inr (u, e, on, yes_u) ↦ inr (u, rw no_t e, ground arith, yes_u)
  ]
]

left_of_and : (a b : Bool) → (a && b) ≡ true → a ≡ true
left_of_and true b h = refl
left_of_and false b h = cc

main_free :
    (s : Signals) (pid sig t : ℕ)
    → is_main s pid t ≡ true
    → can_handle s sig t ≡ true
    → is_free s pid sig t ≡ true
unfolding is_main is_free
main_free s pid sig t main able =
    let of_pid : (pid_of s t == pid) ≡ true = left_of_and _ _ main in rw (is_free, of_pid) able

pub choose_task_cases :
    (s : Signals) (pid sig : ℕ) (ring : List ℕ)
    → ((choose_task s pid sig ring ≡ none) × NoneOf (is_free s pid sig) ring)
      ⊎ ((u : ℕ) × (choose_task s pid sig ring ≡ some u)
          × (is_member u ring ≡ true)
          × (is_free s pid sig u ≡ true))
unfolding choose_task
choose_task_cases s pid sig ring =
    let free = find_task_cases (is_free s pid sig) ring in
    elim (find_task_cases (is_main s pid) ring) [
      | inl (e, others) ↦ elim free [
        | inl (f, not_free) ↦ inl (rw (choose_task, e) f, not_free)
        | inr (u, f, on, yes_u) ↦ inr (u, rw (choose_task, e) f, on, yes_u)
      ]
      | inr (t, e, on, main) ↦ elim (Bool-cases (can_handle s sig t)) [
        | inl able ↦
            inr (t, rw (choose_task, e) (rw able refl), on, main_free s pid sig t main able)
        | inr busy ↦ elim free [
          | inl (f, not_free) ↦ inl (rw (choose_task, e) (rw busy f), not_free)
          | inr (u, f, on', yes_u) ↦ inr (u, rw (choose_task, e) (rw busy f), on', yes_u)
        ]
      ]
    ]

right_of_and : (a b : Bool) → (a && b) ≡ true → b ≡ true
right_of_and true b h = h
right_of_and false b h = cc

-- Only a task of the process that does not block the signal nor handles another one is free.
pub free_cases :
    (s : Signals) (pid sig u : ℕ)
    → is_free s pid sig u ≡ true
    → (pid_of s u ≡ pid) × (is_idle (s.threads u).current_sig ≡ true)
unfolding is_free can_handle
free_cases s pid sig u h =
    let able = right_of_and (pid_of s u == pid) (can_handle s sig u) h in
    (
      (==_iff (pid_of s u) pid).0 (left_of_and (pid_of s u == pid) (can_handle s sig u) h),
      right_of_and (not (blocks (s.threads u).sig_mask sig)) (is_idle (s.threads u).current_sig)
          able,
    )
