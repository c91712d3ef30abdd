-- ===== src/Threading/ProgramBreak.antt =====
-- The program break of a process, `sbrk` of kernel/threading/scheduler.cpp. The calls of the paging
-- manager are a parameter.
pub mod Pages
pub mod Backed
pub mod Calls
use influx.Base.{
  ℕ, zero, suc, ◌+◌, ◌-◌, ◌*◌, ◌/◌, ◌%◌, ◌^◌, Bool, true, false, not, ◌&&◌, ◌||◌, none, ltb, leb,
  ◌==◌, if◌then◌else◌, add64, sub64, u64_mod,
}
use influx.Base.Run.{Run, ok, fault, ◌>>=◌, out_of_fuel}
use influx.Memory.PhysicalAllocator.{page_size}
use influx.Memory.VirtualAllocator.{Paging, read_write}

pub record ProgramBreak (P : Type 0) : Type 0 where
  pub program_break_start : ℕ
  pub program_break_end : ℕ
  pub paging : P

-- Where the stack of a process starts.
abbrev pub default_user_stack_address : ℕ
default_user_stack_address = 0x800000000000 - 0x100000 * 10

-- The first page at or behind an address, and the page of the byte before it.
unfoldable pub next_page : ℕ → ℕ
next_page end = end + (if end % page_size == 0 then 0 else page_size - end % page_size)

unfoldable pub last_page : ℕ → ℕ
last_page end = sub64 end (if end % page_size == 0 then page_size else end % page_size)

-- Whether `sbrk` maps pages for an increment above 0.
unfoldable pub needs_pages : ℕ → ℕ → ℕ → Bool
needs_pages start end new_end = not (end / page_size == new_end / page_size) || start == end

module _ {P : Type 0} (paging : Paging P) where
  -- The loop that maps the pages from an address up to a limit. The pages are those of a user.
  unfoldable pub map_up : ℕ → ℕ → ℕ → P → Run (P × Bool)
  map_up zero limit addr p = fault out_of_fuel
  map_up (suc fuel) limit addr p =
      let (mapped, done) = paging.map_page p addr none in
      let rest =
        map_up fuel limit (add64 addr page_size)
          (paging.set_pte_permissions mapped addr read_write) in
      if ltb addr limit then (if done then rest else ok (mapped, false)) else ok (p, true)

  -- The loop that unmaps the pages from an address down to a limit.
  unfoldable pub unmap_down : ℕ → ℕ → ℕ → P → Run P
  unmap_down zero limit addr p = fault out_of_fuel
  unmap_down (suc fuel) limit addr p =
      let rest = unmap_down fuel limit (sub64 addr page_size) (paging.unmap_page p addr) in
      if leb limit addr then rest else ok p

  -- The increment is a number of 64 bits in two's complement, and the fuel has a round for each page
  -- between the two ends and one to stop.
  unfoldable pub sbrk : ℕ → ProgramBreak P → Run (ProgramBreak P × ℕ)
  unfolding map_up unmap_down needs_pages next_page last_page
  sbrk inc s =
      let end = s.program_break_end in
      let new_end = add64 end inc in
      let moved = λ (p : P). record s { program_break_end = new_end; paging = p } in
      let grown = map_up ((new_end - end) / page_size + 2) new_end (next_page end) s.paging >>= λ r.
      if r.1 then ok (moved r.0, end) else ok (record s { paging = r.0 }, 0) in
      let shrunk =
        unmap_down ((end - new_end) / page_size + 2) new_end (last_page end) s.paging >>= λ p.
        ok (moved p, end) in
      if inc == 0
      then ok (s, end)
      else if ltb new_end s.program_break_start || leb default_user_stack_address new_end
      then ok (s, 0)
      else if leb (2 ^ 63) inc
      then shrunk
      else if needs_pages s.program_break_start end new_end
      then grown
      else ok (moved s.paging, end)
