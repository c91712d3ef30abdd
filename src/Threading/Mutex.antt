-- ===== src/Threading/Mutex.antt =====
-- kernel/threading/mutex.cpp with any number of threads. A step is what one thread does under the spinlock of
-- the value or of the wait queue, so the steps may come in any order.
pub mod Exclusion
use influx.Base.{
  ℕ, ◌≡◌, ◌≢◌, refl, sym, ap, ◌∙◌, Bool, true, false, Bool-cases, inl, inr, List, [], ◌∷◌, ◌++◌,
  ◌==◌, if◌then◌else◌, arith,
}
use influx.Threading.Scheduler.Leave
use native.Mathlib.Decide.{ℕ_discrete}

-- Where a thread is in the calls of the mutex.
pub data Phase : Type 0 where
  -- in no call, without the mutex
  outside : Phase
  -- in `lock`, having seen the mutex locked
  contending : Phase
  -- in `lock`, in the wait queue
  waiting : Phase
  -- in `lock`, taken from the wait queue
  woken : Phase
  -- with the mutex
  inside : Phase
  -- in `unlock`, having seen that a task waits
  handing : Phase
  -- in `unlock`, having seen that none waits
  clearing : Phase

pub record Mutex : Type 0 where
  pub locked : Bool
  pub queue : List ℕ
  pub phase : ℕ → Phase

unfoldable pub move : (ℕ → Phase) → ℕ → Phase → ℕ → Phase
move phase t p u = if u == t then p else phase u

-- `lock`, `lock_interruptible`, `try_lock` and `unlock`, step by step.
pub data Step : Mutex → Mutex → Type 0 where
  -- `lock`, `lock_interruptible` and `try_lock` of a mutex that is free
  takes :
      (s : Mutex) (t : ℕ)
      → s.phase t ≡ outside
      → s.locked ≡ false
      → Step s (record s { locked = true; phase = move s.phase t inside })
  contends :
      (s : Mutex) (t : ℕ)
      → s.phase t ≡ outside
      → s.locked ≡ true
      → Step s (record s { phase = move s.phase t contending })
  waits :
      (s : Mutex) (t : ℕ)
      → s.phase t ≡ contending
      → Step s (record s { queue = s.queue ++ t ∷ []; phase = move s.phase t waiting })
  returns :
      (s : Mutex) (t : ℕ) → s.phase t ≡ woken → Step s (record s { phase = move s.phase t inside })
  -- `lock_interruptible` of a thread that a signal woke in the queue, or after it was taken from there
  gives_up :
      (s : Mutex) (t : ℕ)
      → s.phase t ≡ waiting
      → Step s (record s { queue = Leave.remove_task t s.queue; phase = move s.phase t outside })
  drops :
      (s : Mutex) (t : ℕ)
      → s.phase t ≡ woken
      → Step s (record s { queue = Leave.remove_task t s.queue; phase = move s.phase t outside })
  sees_waiting :
      (s : Mutex) (t u : ℕ) (rest : List ℕ)
      → s.phase t ≡ inside
      → s.queue ≡ u ∷ rest
      → Step s (record s { phase = move s.phase t handing })
  sees_none :
      (s : Mutex) (t : ℕ)
      → s.phase t ≡ inside
      → s.queue ≡ []
      → Step s (record s { phase = move s.phase t clearing })
  hands :
      (s : Mutex) (t u : ℕ) (rest : List ℕ)
      → s.phase t ≡ handing
      → s.queue ≡ u ∷ rest
      → Step s (record s { queue = rest; phase = move (move s.phase t outside) u woken })
  clears :
      (s : Mutex) (t : ℕ)
      → s.phase t ≡ clearing
      → Step s (record s { locked = false; phase = move s.phase t outside })

pub data Reach (s : Mutex) : Mutex → Type 0 where
  here : Reach s s
  next : (t u : Mutex) → Reach s t → Step t u → Reach s u

-- The phases of a thread that has the mutex.
unfoldable pub holds : Phase → Bool
holds outside = false
holds contending = false
holds waiting = false
holds woken = true
holds inside = true
holds handing = true
holds clearing = true

-- A mutex that no thread has used.
abbrev pub new_mutex : Mutex
new_mutex = record { locked = false; queue = []; phase = λ t. outside }
