-- ===== src/Threading/ProgramBreak/Calls.antt =====
-- `sbrk` of kernel/threading/scheduler.cpp on a program break whose pages are mapped.
use influx.Base.{
  ℕ, suc, ◌+◌, ◌-◌, ◌*◌, ◌/◌, ◌%◌, ◌^◌, ◌≤◌, ◌<◌, ◌≡◌, refl, Bool, true, false, ◌||◌, ltb, leb,
  ◌==◌, ==_iff, add64, u64_mod, arith, Bool-cases, inl, inr, ◌⊎◌,
}
use mathlib.Core.Path.{subst}
use influx.Base.Run.{ok}
use influx.Memory.VirtualAllocator.{Paging}
use influx.Threading.ProgramBreak.{
  ProgramBreak, default_user_stack_address, next_page, last_page, needs_pages, map_up, sbrk,
}
use influx.Threading.ProgramBreak.Pages.{
  Tracks, MapsUp, next_page_lem, last_page_lem, map_up-MapsUp, unmap_down_lem,
}
use influx.Threading.ProgramBreak.Backed.{
  Backed, moved-Backed, grown-Backed, same-Backed, shrunk-Backed,
}

-- What a call answers: no address, with the break as it was, or the old end, with the break moved.
abbrev pub Answers : {P : Type 0} → ℕ → ProgramBreak P → ProgramBreak P → ℕ → Type 0
Answers inc s s' r =
    ((r ≡ 0) × (s'.program_break_end ≡ s.program_break_end))
    ⊎ ((r ≡ s.program_break_end) × (s'.program_break_end ≡ add64 s.program_break_end inc))

module _ {P : Type 0} (paging : Paging P) (mapped : P → ℕ → Bool)
    (tracks : Tracks paging mapped) where
  -- The call in a range where it moves the break.
  module _ (inc : ℕ) (s : ProgramBreak P) (v : Backed mapped s) (word : inc < u64_mod)
      (asked : (inc == 0) ≡ false)
      (inside : (ltb (add64 s.program_break_end inc) s.program_break_start
          || leb default_user_stack_address (add64 s.program_break_end inc))
        ≡ false) where
    Moves : Type 0
    Moves =
        (s' : ProgramBreak P) × (r : ℕ) × (sbrk paging inc s ≡ ok (s', r))
        × Backed mapped s'
        × Answers inc s s' r

    sbrk_shrinks : leb (2 ^ 63) inc ≡ true → Moves
    unfolding Moves sbrk
    sbrk_shrinks negative =
        let end = s.program_break_end in
        let new_end = add64 end inc in
        let from : s.program_break_start ≤ new_end = ground arith in
        let low : new_end < default_user_stack_address = ground arith in
        let below = v.below in
        let above = v.above in
        let order = v.ordered in
        let big : 2 ^ 63 ≤ inc = ground arith in
        let less : new_end < end = omega arith in
        let last : (last_page end < end) × (end ≤ last_page end + 4096) =
          last_page_lem end (omega arith) (omega arith) in
        let rounds : (end - new_end) / 4096 + 2 ≡ suc ((end - new_end) / 4096 + 1) = omega arith in
        let (p, run, kept) =
          unmap_down_lem paging mapped tracks ((end - new_end) / 4096 + 1) new_end (last_page end)
            s.paging (omega arith) (omega arith) (omega arith) in
        (
          record s { program_break_end = new_end; paging = p },
          end,
          rw (asked, inside) (rw negative (rw rounds (rw run refl))),
          shrunk-Backed mapped s new_end p v from (omega arith) kept,
          inr (refl, refl),
        )

    -- What the loop that maps the pages gives.
    grown_end :
        (p : P) (done : Bool)
        → leb (2 ^ 63) inc ≡ false
        → needs_pages s.program_break_start s.program_break_end (add64 s.program_break_end inc)
          ≡ true
        → s.program_break_end ≤ add64 s.program_break_end inc
        → map_up paging
            (suc ((add64 s.program_break_end inc - s.program_break_end) / 4096 + 1))
            (add64 s.program_break_end inc)
            (next_page s.program_break_end)
            s.paging
          ≡ ok (p, done)
        → MapsUp mapped s.paging
            (next_page s.program_break_end)
            (add64 s.program_break_end inc)
            p
            done
        → Moves
    unfolding Moves sbrk
    grown_end p done positive needed more run m =
        let end = s.program_break_end in
        let new_end = add64 end inc in
        let low : new_end < default_user_stack_address = ground arith in
        let rounds : (new_end - end) / 4096 + 2 ≡ suc ((new_end - end) / 4096 + 1) = omega arith in
        elim (Bool-cases done) [
          | inl all ↦ (
            record s { program_break_end = new_end; paging = p },
            end,
            rw (asked, inside) (rw (positive, needed) (rw rounds (rw run (rw all refl)))),
            grown-Backed mapped s new_end p v more low
                (subst (MapsUp mapped s.paging (next_page end) new_end p) all m),
            inr (refl, refl),
          )
          | inr failed ↦ (
            record s { paging = p },
            0,
            rw (asked, inside) (rw (positive, needed) (rw rounds (rw run (rw failed refl)))),
            moved-Backed mapped s end p v v.ordered v.below
                λ a from to. m.kept (a / 4096 * 4096) (v.held a from to),
            inl (refl, refl),
          )
        ]

    sbrk_grows :
        leb (2 ^ 63) inc ≡ false
        → needs_pages s.program_break_start s.program_break_end (add64 s.program_break_end inc)
          ≡ true
        → Moves
    unfolding Moves sbrk
    sbrk_grows positive needed =
        let end = s.program_break_end in
        let new_end = add64 end inc in
        let low : new_end < default_user_stack_address = ground arith in
        let below = v.below in
        let small : inc < 2 ^ 63 = ground arith in
        let more : end ≤ new_end = omega arith in
        let first : (end ≤ next_page end) × (next_page end % 4096 ≡ 0) = next_page_lem end in
        let (p, done, run, m) =
          map_up-MapsUp paging mapped tracks ((new_end - end) / 4096 + 1) new_end (next_page end)
            s.paging first.1 (omega (arith, first.0)) low in
        grown_end p done positive needed more run m

    sbrk_stays :
        (s.program_break_end % 4096 ≡ 0
          → (s.program_break_start ≡ s.program_break_end) ⊎ (4096 ≤ inc))
        → leb (2 ^ 63) inc ≡ false
        → needs_pages s.program_break_start s.program_break_end (add64 s.program_break_end inc)
          ≡ false
        → Moves
    unfolding Moves sbrk needs_pages
    sbrk_stays far positive enough =
        let end = s.program_break_end in
        let new_end = add64 end inc in
        let low : new_end < default_user_stack_address = ground arith in
        let below = v.below in
        let small : inc < 2 ^ 63 = ground arith in
        let more : new_end ≡ end + inc = omega arith in
        let gap : end % 4096 ≡ 0 → 4096 ≤ new_end - end =
          λ even. elim (far even) [ inl new ↦ absurd (ground arith) | inr wide ↦ omega arith ] in
        (
          record s { program_break_end = new_end },
          end,
          rw (asked, inside) (rw positive (rw enough refl)),
          same-Backed mapped s new_end v (omega arith) low gap (ground arith),
          inr (refl, refl),
        )

  -- For a paging manager that keeps account of its pages, whether it maps all it is asked for or
  -- fails, a program break that starts at a page of 4096 or above and ends below the stack, with the
  -- page of every byte of it mapped, and an increment of 64 bits in two's complement, which, if the
  -- end is that of a page behind the start, is not between 0 and 4095: `sbrk` ends without a fault and
  -- the page of every byte of the new program break is mapped; the call answers 0 with the end as it
  -- was, or the old end with the increment added to the end.
  pub sbrk-Backed :
      (inc : ℕ) (s : ProgramBreak P)
      → Backed mapped s
      → inc < u64_mod
      → (s.program_break_end % 4096 ≡ 0
          → (s.program_break_start ≡ s.program_break_end) ⊎ (4096 ≤ inc))
      → (s' : ProgramBreak P) × (r : ℕ) × (sbrk paging inc s ≡ ok (s', r))
        × Backed mapped s'
        × Answers inc s s' r
  unfolding sbrk
  sbrk-Backed inc s v word far =
      let start = s.program_break_start in
      let end = s.program_break_end in
      let new_end = add64 end inc in
      elim (Bool-cases (inc == 0)) [
        | inl none_asked ↦
            let same : inc ≡ 0 = (==_iff inc 0).0 none_asked in
            (s, end, rw none_asked refl, v, inr (refl, omega (arith, v.below)))
        | inr asked ↦
            elim (Bool-cases (ltb new_end start || leb default_user_stack_address new_end)) [
              | inl out ↦ (s, 0, rw (asked, out) refl, v, inl (refl, refl))
              | inr inside ↦ elim (Bool-cases (leb (2 ^ 63) inc)) [
                | inl negative ↦ unfold Moves in (sbrk_shrinks inc s v word asked inside negative)
                | inr positive ↦ elim (Bool-cases (needs_pages start end new_end)) [
                  | inl needed ↦
                      unfold Moves in (sbrk_grows inc s v word asked inside positive needed)
                  | inr enough ↦
                      unfold Moves in (sbrk_stays inc s v word asked inside far positive enough)
                ]
              ]
            ]
      ]
