-- ===== src/Memory/VirtualAllocator.antt =====
-- The allocator of virtual addresses of kernel/memory/virtual_allocator.cpp. Its state is the list of
-- regions, the page that the nodes of the list are taken from, and the region of a new such page that
-- is not on the list yet.
pub mod Insertion
pub mod Release
pub mod Calls
pub mod Regions
pub mod Combine
pub mod Split
pub mod Insert
pub mod FreeRegion
pub mod Allocate
pub mod Free
use influx.Base.{
  ℕ, zero, suc, ◌+◌, ◌-◌, ◌*◌, ◌/◌, ◌%◌, Bool, true, false, not, ◌&&◌, ◌||◌, List, [], ◌∷◌, ◌++◌,
  Option, none, some, ltb, leb, ◌==◌, if◌then◌else◌, add64, sub64,
}
use influx.Memory.PhysicalAllocator.{page_size}

-- include/memory/vma_region.h
pub record Region : Type 0 where
  pub base_addr : ℕ
  pub size : ℕ
  pub protection_flags : ℕ
  pub allocated : Bool

-- What the allocator calls of the paging manager and of the physical allocator, over their state. The
-- physical page of `map_page` is none for -1.
pub record Paging {ℓ} (P : Type ℓ) : Type ℓ where
  pub map_page : P → ℕ → Option ℕ → P × Bool
  pub unmap_page : P → ℕ → P
  pub set_pte_permissions : P → ℕ → ℕ → P
  pub get_physical_address : P → ℕ → ℕ
  pub free_page : P → ℕ → P

-- `room` is the size left of `_current_vma_list_page`, or none before its pointer is set.
pub record Allocator {ℓ} (P : Type ℓ) : Type ℓ where
  pub regions : List Region
  pub room : Option ℕ
  pub pending : Region
  pub paging : P

-- A node of the list with those before it and those behind it.
pub record Place : Type 0 where
  pub before : List Region
  pub node : Region
  pub behind : List Region

-- The flags of include/memory/protection_flags.h for a page of the list.
abbrev pub read_write : ℕ
read_write = 3

-- `sizeof(vma_node_t)`: two 64-bit numbers and two bytes, padded, and two pointers.
abbrev pub node_bytes : ℕ
node_bytes = 40

abbrev pub list_page_addr : ℕ
list_page_addr = 0xffffff7f80900000

abbrev pub no_region : Region
no_region = record { base_addr = 0; size = 0; protection_flags = 0; allocated = false }

unfoldable pub address_in_vma_region : ℕ → Region → Bool
address_in_vma_region address r = leb r.base_addr address && ltb address (add64 r.base_addr r.size)

-- What an address wants to the next page.
unfoldable pub padding : ℕ → ℕ
padding address = if address % page_size == 0 then 0 else page_size - address % page_size

-- The condition on which the loop of `find_free_region` passes a region over.
unfoldable pub passes : ℕ → Region → Region → Bool
unfolding padding
passes size ignored r =
    ltb r.size (add64 size (padding r.base_addr))
    || r.allocated
    || (r.base_addr == ignored.base_addr
        && ltb (sub64 r.size ignored.size)
            (add64 size (padding (add64 ignored.base_addr ignored.size))))

unfoldable pub find_free_region : List Region → ℕ → ℕ → Region → Region
unfolding passes padding
find_free_region [] size flags ignored = no_region
find_free_region (r ∷ rest) size flags ignored =
    if passes size ignored r
    then find_free_region rest size flags ignored
    else let end = add64 ignored.base_addr ignored.size in
      record {
        base_addr =
            if r.base_addr == ignored.base_addr
            then add64 end (padding end)
            else add64 r.base_addr (padding r.base_addr);
        size = size;
        protection_flags = flags;
        allocated = true;
      }

-- `prev()` of a node, with the nodes before that one.
unfoldable pub split_last : List Region → Option (List Region × Region)
split_last [] = none
split_last (r ∷ rest) = elim (split_last rest) [
  | none ↦ some ([], r)
  | some (before, last) ↦ some (r ∷ before, last)
]

unfoldable pub same_kind : Region → Region → Bool
same_kind r s =
    (if r.allocated then s.allocated else not s.allocated)
    && r.protection_flags == s.protection_flags

-- The two halves of `check_for_vma_node_combination`.
unfoldable pub combine_prev : Place → Place
unfolding split_last same_kind
combine_prev p = elim (split_last p.before) [
  | none ↦ p
  | some (before, last) ↦
      if same_kind last p.node
      then record p { before = before; node = record last { size = add64 last.size p.node.size } }
      else p
]

unfoldable pub combine_next : Place → Place
unfolding same_kind
combine_next p = elim p.behind [
  | [] ↦ p
  | next ∷ behind ↦
      if same_kind next p.node
      then record p { node = record p.node { size = add64 p.node.size next.size }; behind = behind }
      else p
]

unfoldable pub check_for_vma_node_combination : Place → Place
unfolding combine_prev combine_next
check_for_vma_node_combination p = combine_next (combine_prev p)

-- The list that a node stands in.
unfoldable pub whole : Place → List Region
whole p = p.before ++ p.node ∷ p.behind

-- The next node. The nodes that `free_vma_region` goes to are never combined with the one before them
-- first, since one is allocated and the other is not.
unfoldable pub forward : Place → Place
forward p = elim p.behind [
  | [] ↦ p
  | next ∷ behind ↦ record { before = p.before ++ p.node ∷ []; node = next; behind = behind }
]

-- `_vma_list_head->insert(new_node)`: where the ordered list takes a region.
unfoldable pub walk : Region → List Region → List Region × List Region
walk region [] = ([], [])
walk region (r ∷ rest) =
    let later = walk region rest in
    if ltb r.base_addr region.base_addr then (r ∷ later.0, later.1) else ([], r ∷ rest)

unfoldable pub place : Region → Region → List Region → Place
unfolding walk
place region head rest =
    if ltb region.base_addr head.base_addr
    then record { before = []; node = region; behind = head ∷ rest }
    else let later = walk region rest in
      record { before = head ∷ later.0; node = region; behind = later.1 }
