-- ===== src/Threading/ProgramBreak/Backed.antt =====
-- A program break whose pages are mapped, and its changes by `sbrk` of kernel/threading/scheduler.cpp.
use influx.Base.{
  ℕ, ◌-◌, ◌*◌, ◌/◌, ◌%◌, ◌≤◌, ◌<◌, ◌≡◌, refl, ap, ◌∙◌, Bool, true, ltb, ◌==◌, arith, Bool-cases,
  inl, inr,
}
use influx.Threading.ProgramBreak.{ProgramBreak, default_user_stack_address, next_page}
use influx.Threading.ProgramBreak.Pages.{MapsUp}

-- The page of every byte from the start of the program break up to its end is mapped.
pub record Backed {P : Type 0} (mapped : P → ℕ → Bool) (s : ProgramBreak P) : Type 0 where
  pub aligned : s.program_break_start % 4096 ≡ 0
  pub above : 4096 ≤ s.program_break_start
  pub ordered : s.program_break_start ≤ s.program_break_end
  pub below : s.program_break_end < default_user_stack_address
  pub held :
      (a : ℕ)
      → s.program_break_start ≤ a
      → a < s.program_break_end
      → mapped s.paging (a / 4096 * 4096) ≡ true

module _ {P : Type 0} (mapped : P → ℕ → Bool) where
  -- The page of an address is mapped if it starts below the end.
  pub page_held :
      (s : ProgramBreak P) (a : ℕ)
      → Backed mapped s
      → s.program_break_start ≤ a
      → a / 4096 * 4096 < s.program_break_end
      → mapped s.paging (a / 4096 * 4096) ≡ true
  page_held s a v from near = elim (Bool-cases (ltb a s.program_break_end)) [
    | inl low ↦ v.held a from (ground arith)
    | inr high ↦
        let before = s.program_break_end - 1 in
        let behind : s.program_break_end ≤ a = ground arith in
        let first : s.program_break_start ≤ before = omega (arith, v.aligned) in
        let same : a / 4096 * 4096 ≡ before / 4096 * 4096 = omega (arith, v.ordered) in
        ap (mapped s.paging) same ∙ v.held before first (omega arith)
  ]

  pub moved-Backed :
      (s : ProgramBreak P) (new_end : ℕ) (p : P)
      → Backed mapped s
      → s.program_break_start ≤ new_end
      → new_end < default_user_stack_address
      → ((a : ℕ) → s.program_break_start ≤ a → a < new_end → mapped p (a / 4096 * 4096) ≡ true)
      → Backed mapped (record s { program_break_end = new_end; paging = p })
  moved-Backed s new_end p v from low held = record {
    aligned = v.aligned;
    above = v.above;
    ordered = from;
    below = low;
    held = held;
  }

  pub grown-Backed :
      (s : ProgramBreak P) (new_end : ℕ) (p : P)
      → Backed mapped s
      → s.program_break_end ≤ new_end
      → new_end < default_user_stack_address
      → MapsUp mapped s.paging (next_page s.program_break_end) new_end p true
      → Backed mapped (record s { program_break_end = new_end; paging = p })
  unfolding next_page
  grown-Backed s new_end p v more low m =
      moved-Backed s new_end p v (omega (arith, v.ordered)) low λ a from to.
        elim (Bool-cases (ltb (a / 4096 * 4096) s.program_break_end)) [
          | inl old ↦ m.kept (a / 4096 * 4096) (page_held s a v from (ground arith))
          | inr new ↦ m.up refl (a / 4096 * 4096) (omega arith) (ground arith) (omega arith)
        ]

  pub same-Backed :
      (s : ProgramBreak P) (new_end : ℕ)
      → Backed mapped s
      → s.program_break_end ≤ new_end
      → new_end < default_user_stack_address
      → (s.program_break_end % 4096 ≡ 0 → 4096 ≤ new_end - s.program_break_end)
      → s.program_break_end / 4096 ≡ new_end / 4096
      → Backed mapped (record s { program_break_end = new_end; paging = s.paging })
  same-Backed s new_end v more low far same =
      moved-Backed s new_end s.paging v (omega (arith, v.ordered)) low λ a from to.
        page_held s a v from (elim (Bool-cases (s.program_break_end % 4096 == 0)) [
          | inl even ↦ let gap = far (ground arith) in absurd (omega (arith))
          | inr odd ↦ ground arith
        ])

  pub shrunk-Backed :
      (s : ProgramBreak P) (new_end : ℕ) (p : P)
      → Backed mapped s
      → s.program_break_start ≤ new_end
      → new_end ≤ s.program_break_end
      → ((b : ℕ) → b < new_end → mapped p b ≡ mapped s.paging b)
      → Backed mapped (record s { program_break_end = new_end; paging = p })
  shrunk-Backed s new_end p v from less kept =
      moved-Backed s new_end p v from (omega (arith, v.below))
        λ a start to. kept (a / 4096 * 4096) (omega arith) ∙ v.held a start (omega arith)
