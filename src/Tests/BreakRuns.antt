-- ===== src/Tests/BreakRuns.antt =====
-- Runs of `sbrk` of kernel/threading/scheduler.cpp over a table of pages.
use influx.Base.{ℕ, ◌*◌, ◌/◌, ◌≡◌, refl, Bool, true, false, not, ◌&&◌, ◌||◌, ◌==◌, arith, inr}
use influx.Base.Run.{ok, fault}
use influx.Memory.VirtualAllocator.{Paging}
use influx.Threading.ProgramBreak.{ProgramBreak, sbrk}
use influx.Threading.ProgramBreak.Pages.{Tracks}
use influx.Threading.ProgramBreak.Backed.{Backed}
use influx.Threading.ProgramBreak.Calls.{Answers, sbrk-Backed}

-- A table of the pages that are mapped, which never runs out of memory.
abbrev page_table : Paging (ℕ → Bool)
page_table = record {
  map_page = λ p a wanted. ((λ b. b == a || p b), true);
  unmap_page = λ p a b. not (b == a) && p b;
  set_pte_permissions = λ p a flags. p;
  get_physical_address = λ p a. 0;
  free_page = λ p page. p;
}

abbrev is_mapped : (ℕ → Bool) → ℕ → Bool
is_mapped p b = p b

page_table-Tracks : Tracks page_table is_mapped
page_table-Tracks = record {
  maps = λ p a b done. refl;
  fails = λ p a b failed. cc;
  permits = λ p a f b. refl;
  unmaps = λ p a b. refl;
}

-- A heap of one page.
abbrev one_page : ProgramBreak (ℕ → Bool)
one_page = record {
  program_break_start = 0x400000;
  program_break_end = 0x401000;
  paging = λ b. b == 0x400000;
}

one_page-Backed : Backed is_mapped one_page
one_page-Backed = record {
  aligned = refl;
  above = omega arith;
  ordered = omega arith;
  below = omega arith;
  held = λ a from to. let page : a / 4096 * 4096 ≡ 0x400000 = omega arith in rw page refl;
}

sbrk-Backed_example :
    (s' : ProgramBreak (ℕ → Bool)) × (r : ℕ) × (sbrk page_table 5000 one_page ≡ ok (s', r))
    × Backed is_mapped s'
    × Answers 5000 one_page s' r
sbrk-Backed_example =
    sbrk-Backed page_table is_mapped page_table-Tracks 5000 one_page one_page-Backed (omega arith)
      (λ even. inr (omega arith))

-- The table and the end after a call, or the old ones.
abbrev after : ℕ → ProgramBreak (ℕ → Bool)
after inc = elim (sbrk page_table inc one_page) [ ok r ↦ r.0 | fault e ↦ one_page ]

-- The break moves into a page that is not mapped.
unmapped_page : ((after 16).program_break_end ≡ 0x401010) × ((after 16).paging 0x401000 ≡ false)
unfolding sbrk
unmapped_page = (refl, refl)
