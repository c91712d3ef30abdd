-- ===== src/Memory/VirtualAllocator/Calls.antt =====
-- `allocate` and `free` of kernel/memory/virtual_allocator.cpp.
use influx.Base.{
  ℕ, zero, suc, ◌+◌, ◌*◌, ◌/◌, ◌%◌, Bool, true, false, ◌&&◌, Option, none, some, ◌==◌,
  if◌then◌else◌, add64,
}
use influx.Base.Run.{Run, ok, fault, ◌>>=◌, endless_loop}
use influx.Memory.PhysicalAllocator.{page_size}
use influx.Memory.VirtualAllocator.{Region, Paging, Allocator, no_region, find_free_region}
use influx.Memory.VirtualAllocator.Insertion.{insert_vma_region}
use influx.Memory.VirtualAllocator.Release.{free_vma_region}

module _ {ℓ} {P : Type ℓ} (paging : Paging P) where
  -- The loop of `allocate` that maps the pages from page `i` on, `count` of them. The one that reverts
  -- the maps counts the wrong variable, so it ends only if there is nothing to revert.
  unfoldable pub map_pages : P → Region → Option ℕ → ℕ → ℕ → Run (P × Bool)
  map_pages p region physical i zero = ok (p, true)
  map_pages p region physical i (suc count) =
      let address = add64 region.base_addr (i * page_size) in
      let wanted : Option ℕ = elim physical [ none ↦ none | some first ↦ some (first + i) ] in
      let (mapped, done) = paging.map_page p address wanted in
      let rest =
        map_pages (paging.set_pte_permissions mapped address region.protection_flags) region
          physical (i + 1) count in
      if done then rest else if i == 0 then ok (mapped, false) else fault endless_loop

  -- The private `allocate(region)`: the address, or none for the null pointer.
  unfoldable pub allocate_region : Allocator P → Region → Option ℕ → Run (Allocator P × Option ℕ)
  unfolding map_pages
  allocate_region s region physical =
      if region.size == 0
      then ok (s, none)
      else map_pages s.paging region physical 0 (region.size / page_size) >>= λ r.
          let inserted = insert_vma_region paging (record s { paging = r.0 }) region in
          if r.1
          then inserted >>= (λ s'. ok (s', some region.base_addr))
          else ok (record s { paging = r.0 }, none)

  unfoldable pub allocate : Allocator P → ℕ → ℕ → Option ℕ → Run (Allocator P × Option ℕ)
  unfolding allocate_region
  allocate s size flags physical =
      if size % page_size == 0
      then allocate_region s (find_free_region s.regions size flags no_region) physical
      else ok (s, none)

  -- The loop of `free` over the pages from page `i` on.
  unfoldable pub unmap_pages : P → ℕ → ℕ → ℕ → P
  unmap_pages p start i zero = p
  unmap_pages p start i (suc count) =
      let address = add64 start (i * page_size) in
      let physical = paging.get_physical_address p address in
      let freed = if physical == 0 then p else paging.free_page p (physical / page_size) in
      unmap_pages (paging.unmap_page freed address) start (i + 1) count

  unfoldable pub free : Allocator P → ℕ → ℕ → Run (Allocator P)
  unfolding free_vma_region unmap_pages
  free s start size =
      let region : Region = record {
        base_addr = start;
        size = size;
        protection_flags = 0;
        allocated = true;
      } in
      let freed = free_vma_region paging s region >>= λ r.
      ok (record r.0 { paging = unmap_pages r.0.paging start 0 (size / page_size) }) in
      if size % page_size == 0 && start % page_size == 0 then freed else ok s
