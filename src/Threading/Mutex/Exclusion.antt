-- ===== src/Threading/Mutex/Exclusion.antt =====
-- Who has a mutex of kernel/threading/mutex.cpp after any steps.
use influx.Base.{
  ℕ, ◌≡◌, ◌≢◌, refl, sym, ap, ◌∙◌, true, false, Bool-cases, inl, inr, List, [], ◌∷◌, ◌++◌, arith,
}
use influx.Threading.Scheduler.Leave
use native.Mathlib.Decide.{ℕ_discrete}
use influx.Threading.Mutex.{
  Phase, outside, contending, waiting, woken, inside, handing, clearing, Mutex, move, Step, takes,
  contends, waits, returns, gives_up, drops, sees_waiting, sees_none, hands, clears, Reach, here,
  next, holds,
}

pub record Inv (s : Mutex) : Type 0 where
  pub free : (i : ℕ) → s.locked ≡ false → holds (s.phase i) ≡ false
  pub alone : (i j : ℕ) → holds (s.phase i) ≡ true → holds (s.phase j) ≡ true → i ≡ j

true_ne : true ≢ false
true_ne h = cc

move_self : (phase : ℕ → Phase) (t : ℕ) (p : Phase) → move phase t p t ≡ p
unfolding move
move_self phase t p = ground arith

move_ne : (phase : ℕ → Phase) (t u : ℕ) (p : Phase) → u ≢ t → move phase t p u ≡ phase u
unfolding move
move_ne phase t u p h = ground arith

-- A thread that goes to a phase with as much of the mutex as before.
same-holds :
    (phase : ℕ → Phase) (t : ℕ) (p : Phase)
    → holds p ≡ holds (phase t)
    → (i : ℕ) → holds (move phase t p i) ≡ holds (phase i)
same-holds phase t p e i = elim (ℕ_discrete i t) [
  | yes k ↦ rw k (ap holds (move_self phase t p) ∙ e)
  | no k ↦ ap holds (move_ne phase t i p k)
]

stays-Inv :
    (s : Mutex) (queue : List ℕ) (t : ℕ) (p : Phase)
    → Inv s
    → holds p ≡ holds (s.phase t)
    → Inv (record s { queue = queue; phase = move s.phase t p })
stays-Inv s queue t p v e =
    let same = same-holds s.phase t p e in
    record {
      free = λ i h. same i ∙ v.free i h;
      alone = λ i j h k. v.alone i j (sym (same i) ∙ h) (sym (same j) ∙ k);
    }

-- Only `t` may have the mutex.
Only : (ℕ → Phase) → ℕ → Type 0
Only phase t = (i : ℕ) → holds (phase i) ≡ true → i ≡ t

Only-alone :
    (phase : ℕ → Phase) (t : ℕ)
    → Only phase t
    → (i j : ℕ) → holds (phase i) ≡ true
    → holds (phase j) ≡ true
    → i ≡ j
unfolding Only
Only-alone phase t o i j h k = o i h ∙ sym (o j k)

-- A thread that takes the mutex when none but `r` had it, and `r` has it no more.
Only-move :
    (phase : ℕ → Phase) (t : ℕ) (p : Phase)
    → ((i : ℕ) → i ≢ t → holds (phase i) ≡ false)
    → Only (move phase t p) t
unfolding Only
Only-move phase t p others i h = elim (ℕ_discrete i t) [
  | yes k ↦ k
  | no k ↦
      let gone : holds (phase i) ≡ false = others i k in
      let kept = ap holds (move_ne phase t i p k) in absurd (true_ne (sym h ∙ kept ∙ gone))
]

-- The others do without it.
released :
    (s : Mutex) (t : ℕ) (p : Phase)
    → Inv s
    → holds (s.phase t) ≡ true
    → holds p ≡ false
    → (i : ℕ) → holds (move s.phase t p i) ≡ false
released s t p v had none i = elim (ℕ_discrete i t) [
  | yes k ↦ rw k (ap holds (move_self s.phase t p) ∙ none)
  | no k ↦ elim (Bool-cases (holds (s.phase i))) [
    | inl h ↦ absurd (k (v.alone i t h had))
    | inr h ↦ ap holds (move_ne s.phase t i p k) ∙ h
  ]
]

pub Step-Inv : {s t : Mutex} → Step s t → Inv s → Inv t
unfolding holds
Step-Inv (takes s t e free) v = record {
  free = λ i h. absurd (true_ne h);
  alone = Only-alone (move s.phase t inside) t (Only-move s.phase t inside (λ i k. v.free i free));
}
Step-Inv (contends s t e h) v = stays-Inv s s.queue t contending v (sym (ap holds e))
Step-Inv (waits s t e) v = stays-Inv s (s.queue ++ t ∷ []) t waiting v (sym (ap holds e))
Step-Inv (returns s t e) v = stays-Inv s s.queue t inside v (sym (ap holds e))
Step-Inv (gives_up s t e) v =
    stays-Inv s (Leave.remove_task t s.queue) t outside v (sym (ap holds e))
Step-Inv (drops s t e) v =
    let none_left = released s t outside v (ap holds e) refl in
    record { free = λ i h. none_left i; alone = λ i j h k. absurd (true_ne (sym h ∙ none_left i)) }
Step-Inv (sees_waiting s t u rest e q) v = stays-Inv s s.queue t handing v (sym (ap holds e))
Step-Inv (sees_none s t e q) v = stays-Inv s s.queue t clearing v (sym (ap holds e))
Step-Inv (hands s t u rest e q) v =
    let none_left = released s t outside v (ap holds e) refl in
    record {
      free = λ i h. absurd (true_ne (sym (ap holds e) ∙ v.free t h));
      alone =
          Only-alone (move (move s.phase t outside) u woken) u
            (Only-move (move s.phase t outside) u woken (λ i k. none_left i));
    }
Step-Inv (clears s t e) v =
    let none_left = released s t outside v (ap holds e) refl in
    record { free = λ i h. none_left i; alone = λ i j h k. absurd (true_ne (sym h ∙ none_left i)) }

pub Reach-Inv : {s t : Mutex} → Inv s → Reach s t → Inv t
Reach-Inv v here = v
Reach-Inv v (next t u r st) = Step-Inv st (Reach-Inv v r)
