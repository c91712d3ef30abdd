-- ===== src/Memory/VirtualAllocator/Allocate.antt =====
-- `allocate` of kernel/memory/virtual_allocator.cpp and the addresses that it hands out.
use influx.Base.{
  ℕ, zero, suc, ◌+◌, ◌*◌, ◌/◌, ◌%◌, ◌≤◌, ◌<◌, ◌≡◌, refl, sym, ap, ◌∙◌, true, false, ◌&&◌, Option,
  none, some, ltb, leb, ◌==◌, add64, u64_mod, arith, inl, inr,
}
use influx.Base.Run.{ok}
use influx.Memory.PhysicalAllocator.{page_size}
use influx.Memory.VirtualAllocator.{
  Region, Paging, Allocator, node_bytes, no_region, find_free_region,
}
use influx.Memory.VirtualAllocator.Calls.{map_pages, allocate_region, allocate}
use influx.Memory.VirtualAllocator.Regions.{Tiles, lookup, Updates}
use influx.Memory.VirtualAllocator.Insert.{insert_vma_region-Changes}
use influx.Memory.VirtualAllocator.FreeRegion.{
  NoRoom, placed, Search, find_free_region-Search, Found-free,
}

module _ {ℓ} {P : Type ℓ} (paging : Paging P) where
  -- What a call answers: nothing, the state kept and no region with room; or a page address, all of whose
  -- bytes were free and are allocated now with the flags, all other addresses being as before, and whose
  -- pages are mapped.
  abbrev pub Answers : Allocator P → ℕ → ℕ → Option ℕ → ℕ → Allocator P → Option ℕ → Type ℓ
  Answers s size flags physical end s' none = (s' ≡ s) × NoRoom size s.regions
  Answers s size flags physical end s' (some address) =
      (map_pages paging s.paging (placed size flags address) physical 0 (size / page_size)
        ≡ ok (s'.paging, true))
      × (address % page_size ≡ 0)
      × ((a : ℕ)
          → leb address a && ltb a (address + size) ≡ true
          → (k : ℕ) × (lookup s.regions a ≡ some (false, k)))
      × Updates (λ a. leb address a && ltb a (address + size)) (true, flags) end s.regions
          s'.regions

  module _ (maps : (p : P) (a : ℕ) (w : Option ℕ) → (paging.map_page p a w).1 ≡ true) where
    -- If each page is mapped, the loop ends well.
    map_pages-done :
        (count : ℕ) (p : P) (r : Region) (physical : Option ℕ) (i : ℕ)
        → (p' : P) × (map_pages paging p r physical i count ≡ ok (p', true))
    unfolding map_pages
    map_pages-done zero p r physical i = (p, refl)
    map_pages-done (suc count) p r physical i =
        let wanted : Option ℕ = elim physical [ none ↦ none | some first ↦ some (first + i) ] in
        let address = add64 r.base_addr (i * page_size) in
        let mapped =
          paging.set_pte_permissions (paging.map_page p address wanted).0 address
            r.protection_flags in
        let (p', run) = map_pages-done count mapped r physical (i + 1) in
        (p', rw (maps p address wanted) run)

    module _ (s : Allocator P) (start end room size flags : ℕ) (physical : Option ℕ)
        (t : Tiles start s.regions end) (word : end < u64_mod) (high : 0 < start)
        (roomy : s.room ≡ some room) (two : 2 * node_bytes ≤ room) (idle : s.pending.size ≡ 0)
        (some_size : 0 < size) (small : size + page_size < u64_mod) where
      allocate_region-Answers :
          (r : Region)
          → Search s.regions size flags r
          → (s' : Allocator P) × (o : Option ℕ) × (allocate_region paging s r physical ≡ ok (s', o))
            × Answers s size flags physical end s' o
      unfolding allocate_region
      allocate_region-Answers r (inl (e, full)) = (s, none, rw e refl, (refl, full))
      allocate_region-Answers r (inr (base_addr, e, f)) =
          let r' = placed size flags base_addr in
          let (p', run) = map_pages-done (size / page_size) s.paging r' physical 0 in
          let mapped : Allocator P = record s { paging = p' } in
          let (s', insert, u, still, pages) =
            insert_vma_region-Changes paging mapped r' f.before f.container f.behind start end room
              f.listed t word f.inside roomy two idle in
          let some_region : (size == 0) ≡ false = ground arith in
          (
            s',
            some base_addr,
            rw e (rw (some_region, run, insert) refl),
            (
              run ∙ ap (λ q. ok (q, true)) (sym pages),
              f.aligned,
              (λ a h. (f.container.protection_flags, Found-free start end r' t f a h)),
              u,
            ),
          )

      -- For regions that follow each other without a gap from an address above 0 to one below 2^64, a
      -- page of the list with room for two nodes, no region pending, and a positive size of whole
      -- pages, less than 2^64 minus a page: if each page can be mapped, `allocate` ends without a
      -- fault. It answers nothing, and then the state is as before and no free region has room behind
      -- its first page boundary; or it answers a page address, all of whose bytes were free and are
      -- allocated now with the flags, the pages being mapped and all other addresses being as before.
      pub allocate-Answers :
          size % page_size ≡ 0
          → (s' : Allocator P) × (o : Option ℕ) × (allocate paging s size flags physical
              ≡ ok (s', o))
            × Answers s size flags physical end s' o
      unfolding allocate
      allocate-Answers whole_pages =
          let found = find_free_region s.regions size flags no_region in
          let (s', o, run, answers) =
            allocate_region-Answers found (
              find_free_region-Search s.regions start end size flags t word high some_size small) in
          (s', o, rw whole_pages run, answers)
