-- ===== src/Memory/VirtualAllocator/Insertion.antt =====
-- New nodes of the list of regions of kernel/memory/virtual_allocator.cpp, and `insert_vma_region`.
use influx.Base.{
  ℕ, zero, suc, ◌-◌, true, List, [], ◌∷◌, ◌++◌, Option, none, some, ltb, ◌==◌, if◌then◌else◌, add64,
  sub64,
}
use influx.Base.Run.{Run, ok, fault, ◌>>=◌, null_pointer, out_of_fuel}
use influx.Structures.NodeList.{find_node}
use influx.Memory.PhysicalAllocator.{page_size}
use influx.Memory.VirtualAllocator.{
  Region, Paging, Allocator, Place, read_write, node_bytes, list_page_addr, no_region,
  address_in_vma_region, find_free_region, check_for_vma_node_combination, whole, place,
}

-- The region of the page that `alloc_vma_node` wants for the list: empty if it needs none.
unfoldable pub list_page_region : List Region → Option ℕ → Region → Region
list_page_region regions none region = record {
  base_addr = list_page_addr;
  size = page_size;
  protection_flags = read_write;
  allocated = true;
}
list_page_region regions (some room) region =
    if ltb room node_bytes then find_free_region regions page_size read_write region else no_region

-- Where the new node goes if it starts where its container does.
unfoldable pub place_first : Region → List Region → Region → List Region → Place
place_first region [] container behind = place region container behind
place_first region (b ∷ before) container behind = record {
  before = b ∷ before;
  node = region;
  behind = container ∷ behind;
}

module _ {ℓ} {P : Type ℓ} (paging : Paging P) where
  -- The end of `alloc_vma_node`. Each caller follows a null pointer that it answers.
  unfoldable pub take_node : Allocator P → Run (Allocator P)
  take_node s = elim s.room [
    | none ↦ fault null_pointer
    | some room ↦
        if ltb room node_bytes
        then fault null_pointer
        else ok (record s { room = some (room - node_bytes) })
  ]

  -- `alloc_vma_node(region, false)`
  unfoldable pub alloc_vma_node : Allocator P → Region → Run (Allocator P)
  unfolding take_node list_page_region
  alloc_vma_node s region =
      let page = list_page_region s.regions s.room region in
      if page.size == 0
      then take_node s
      else let (mapped, done) = paging.map_page s.paging page.base_addr none in
        if done
        then take_node (record s {
          paging = paging.set_pte_permissions mapped page.base_addr read_write;
          room = some page.size;
          pending = page;
        })
        else fault null_pointer

  -- `insert_vma_region` where no region holds the first address.
  unfoldable pub insert_apart : Allocator P → Region → Run (Allocator P)
  unfolding alloc_vma_node
  insert_apart s region = alloc_vma_node s region >>= λ s'. elim s'.regions [
    | [] ↦ fault null_pointer
    | head ∷ rest ↦
        ok (record s' { regions = whole (check_for_vma_node_combination (place region head rest)) })
  ]

  -- `insert_vma_region` in the container that holds the first address: where both start together, where
  -- both end together, and in the middle.
  unfoldable pub insert_first :
      Allocator P → Region → List Region → Region → List Region → Run (Allocator P)
  unfolding alloc_vma_node place_first
  insert_first s region before c behind =
      let rest = record c {
        base_addr = add64 c.base_addr region.size;
        size = sub64 c.size region.size;
      } in
      alloc_vma_node s region >>= λ s'. ok (record s' {
        regions = whole (check_for_vma_node_combination (place_first region before rest behind));
      })

  unfoldable pub insert_last :
      Allocator P → Region → List Region → Region → List Region → Run (Allocator P)
  unfolding alloc_vma_node
  insert_last s region before c behind =
      let small = record c { size = sub64 c.size region.size } in
      alloc_vma_node s region >>= λ s'. ok (record s' {
        regions = whole (
            check_for_vma_node_combination
              (record { before = before ++ small ∷ []; node = region; behind = behind }));
      })

  unfoldable pub insert_middle :
      Allocator P → Region → List Region → Region → List Region → Run (Allocator P)
  unfolding alloc_vma_node
  insert_middle s region before c behind =
      let end = add64 region.base_addr region.size in
      let small = record c { size = sub64 region.base_addr c.base_addr } in
      let rest = record c { base_addr = end; size = sub64 (add64 c.base_addr c.size) end } in
      alloc_vma_node s region >>= λ s₁. alloc_vma_node s₁ rest >>= λ s₂. ok (record s₂ {
        regions = whole (
            check_for_vma_node_combination
              (record { before = before ++ small ∷ []; node = region; behind = rest ∷ behind }));
      })

  unfoldable pub insert_within :
      Allocator P → Region → List Region → Region → List Region → Run (Allocator P)
  unfolding insert_first insert_last insert_middle
  insert_within s region before c behind =
      if c.base_addr == region.base_addr
      then (if c.size == region.size
          then ok (record s { regions = before ++ region ∷ behind })
          else insert_first s region before c behind)
      else if add64 c.base_addr c.size == add64 region.base_addr region.size
      then insert_last s region before c behind
      else insert_middle s region before c behind

  -- `insert_vma_region` up to the pending region.
  unfoldable pub insert_region : Allocator P → Region → Run (Allocator P)
  unfolding insert_apart insert_within
  insert_region s region = elim (find_node (address_in_vma_region region.base_addr) s.regions) [
    | none ↦ insert_apart s region
    | some (before, c, behind) ↦ insert_within s region before c behind
  ]

  -- The block that ends the operations: the region of a new page of the list is inserted.
  unfoldable pub settle :
      (Allocator P → Region → Run (Allocator P)) → Allocator P → Run (Allocator P)
  settle insert s =
      if s.pending.size == 0 then ok s else insert (record s { pending = no_region }) s.pending

  unfoldable pub insert_fuel : ℕ → Allocator P → Region → Run (Allocator P)
  unfolding insert_region settle
  insert_fuel zero s region = fault out_of_fuel
  insert_fuel (suc fuel) s region = insert_region s region >>= settle (insert_fuel fuel)

  -- A page has room for the nodes of its own region, so `insert_vma_region` calls itself once.
  unfoldable pub insert_vma_region : Allocator P → Region → Run (Allocator P)
  unfolding insert_fuel
  insert_vma_region s region = insert_fuel 2 s region
