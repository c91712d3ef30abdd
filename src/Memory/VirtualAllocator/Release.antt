-- ===== src/Memory/VirtualAllocator/Release.antt =====
-- `free_vma_region` of kernel/memory/virtual_allocator.cpp on the list of regions.
use influx.Base.{Bool, true, false, List, ◌∷◌, ◌++◌, none, some, ◌==◌, if◌then◌else◌, add64, sub64}
use influx.Base.Run.{Run, ok, ◌>>=◌}
use influx.Structures.NodeList.{find_node}
use influx.Memory.VirtualAllocator.{
  Region, Paging, Allocator, address_in_vma_region, check_for_vma_node_combination, whole, forward,
}
use influx.Memory.VirtualAllocator.Insertion.{alloc_vma_node, settle, insert_vma_region}

-- The region as a free one.
abbrev pub hole_of : Region → Region
hole_of region = record region { protection_flags = 0; allocated = false }

module _ {ℓ} {P : Type ℓ} (paging : Paging P) where
  -- `free_vma_region` in the container that holds the first address: the whole of it, its start, its end
  -- and its middle, where the size of the first part is the difference taken the wrong way round.
  unfoldable pub free_whole : Allocator P → List Region → Region → List Region → Run (Allocator P)
  free_whole s before c behind =
      let freed = record c { allocated = false; protection_flags = 0 } in
      ok (record s {
        regions = whole (
            check_for_vma_node_combination
              (record { before = before; node = freed; behind = behind }));
      })

  unfoldable pub free_first :
      Allocator P → Region → List Region → Region → List Region → Run (Allocator P)
  unfolding alloc_vma_node
  free_first s region before c behind =
      let rest = record c {
        base_addr = add64 region.base_addr region.size;
        size = sub64 c.size region.size;
        allocated = true;
      } in
      let freed = record c { size = region.size; allocated = false; protection_flags = 0 } in
      alloc_vma_node paging s rest >>= λ s'. ok (record s' {
        regions = whole (
            check_for_vma_node_combination (
              forward (
                check_for_vma_node_combination
                  (record { before = before; node = freed; behind = rest ∷ behind }))));
      })

  unfoldable pub free_last :
      Allocator P → Region → List Region → Region → List Region → Run (Allocator P)
  unfolding alloc_vma_node
  free_last s region before c behind =
      let small = record c { size = sub64 c.size region.size } in
      alloc_vma_node paging (record s { regions = before ++ small ∷ behind }) (hole_of region)
      >>= λ s'. ok (record s' {
        regions = whole (
            check_for_vma_node_combination (
              forward (
                check_for_vma_node_combination
                  (record { before = before; node = small; behind = hole_of region ∷ behind }))));
      })

  unfoldable pub free_middle :
      Allocator P → Region → List Region → Region → List Region → Run (Allocator P)
  unfolding alloc_vma_node
  free_middle s region before c behind =
      let end = add64 region.base_addr region.size in
      let small = record c { size = sub64 c.base_addr region.base_addr } in
      let rest = record c {
        base_addr = end;
        size = sub64 (add64 c.base_addr small.size) end;
        allocated = true;
      } in
      alloc_vma_node paging (record s { regions = before ++ small ∷ behind }) rest >>= λ s₁.
      alloc_vma_node paging s₁ (hole_of region) >>= λ s₂. ok (record s₂ {
        regions = whole (
            check_for_vma_node_combination (
              forward (
                check_for_vma_node_combination (
                  forward (
                    check_for_vma_node_combination (record {
                      before = before;
                      node = small;
                      behind = hole_of region ∷ rest ∷ behind;
                    }))))));
      })

  unfoldable pub free_within :
      Allocator P → Region → List Region → Region → List Region → Run (Allocator P)
  unfolding free_whole free_first free_last free_middle
  free_within s region before c behind =
      if c.base_addr == region.base_addr
      then (if c.size == region.size
          then free_whole s before c behind
          else free_first s region before c behind)
      else if add64 c.base_addr c.size == add64 region.base_addr region.size
      then free_last s region before c behind
      else free_middle s region before c behind

  unfoldable pub free_region : Allocator P → Region → Run (Allocator P × Bool)
  unfolding free_within
  free_region s region = elim (find_node (address_in_vma_region region.base_addr) s.regions) [
    | none ↦ ok (s, false)
    | some (before, c, behind) ↦
        if c.allocated
        then free_within s region before c behind >>= (λ s'. ok (s', true))
        else ok (s, false)
  ]

  unfoldable pub free_vma_region : Allocator P → Region → Run (Allocator P × Bool)
  unfolding free_region settle
  free_vma_region s region = free_region s region >>= λ r.
      settle paging (insert_vma_region paging) r.0 >>= λ s'. ok (s', r.1)
