-- ===== src/Tests/VirtualRuns.antt =====
-- Runs of kernel/memory/virtual_allocator.cpp on a small range of addresses.
use influx.Base.{ℕ, ◌+◌, ◌-◌, ◌≡◌, refl, true, false, [], ◌∷◌, Option, none, some, arith, inl}
use influx.Base.Run.{ok}
use influx.Memory.VirtualAllocator.{Region, Paging, Allocator, no_region}
use influx.Memory.VirtualAllocator.Calls.{allocate}
use influx.Memory.VirtualAllocator.Insertion.{insert_vma_region}
use influx.Memory.VirtualAllocator.Release.{free_vma_region}
use influx.Memory.VirtualAllocator.Regions.{Tiles, covers, Updates}
use influx.Memory.VirtualAllocator.Split.{Inside}
use influx.Memory.VirtualAllocator.Insert.{Changes, insert_vma_region-Changes}
use influx.Memory.VirtualAllocator.Allocate.{Answers, allocate-Answers}
use influx.Memory.VirtualAllocator.Free.{free_vma_region-Updates}

-- Paging that counts the mapped pages and never fails.
abbrev counting : Paging ℕ
counting = record {
  map_page = λ n address wanted. (n + 1, true);
  unmap_page = λ n address. n - 1;
  set_pte_permissions = λ n address flags. n;
  get_physical_address = λ n address. 0;
  free_page = λ n page. n;
}

abbrev used_page : Region
used_page = record { base_addr = 0x1000; size = 0x1000; protection_flags = 3; allocated = true }

abbrev free_pages : Region
free_pages = record { base_addr = 0x2000; size = 0x4000; protection_flags = 0; allocated = false }

-- One page in use and four free pages behind it.
abbrev small_space : Allocator ℕ
small_space = record {
  regions = used_page ∷ free_pages ∷ [];
  room = some 400;
  pending = no_region;
  paging = 0;
}

small_space-Tiles : Tiles 0x1000 small_space.regions 0x6000
small_space-Tiles = (refl, omega arith, (refl, omega arith, refl))

abbrev middle_page : Region
middle_page = record { base_addr = 0x3000; size = 0x1000; protection_flags = 1; allocated = true }

middle_page-Inside : Inside middle_page free_pages
middle_page-Inside = record {
  filled = omega arith;
  low = omega arith;
  high = omega arith;
  word = omega arith;
}

insert_vma_region-Changes_example :
    Changes counting
      (insert_vma_region counting small_space middle_page)
      small_space
      (λ a. covers a middle_page)
      (true, 1)
      0x6000
insert_vma_region-Changes_example =
    insert_vma_region-Changes counting small_space middle_page (used_page ∷ []) free_pages [] 0x1000
      0x6000 400 refl small_space-Tiles (omega arith) middle_page-Inside refl (omega arith) refl

allocate-Answers_example :
    (s' : Allocator ℕ) × (o : Option ℕ) × (allocate counting small_space 0x2000 3 none ≡ ok (s', o))
    × Answers counting small_space 0x2000 3 none 0x6000 s' o
allocate-Answers_example =
    allocate-Answers counting (λ p a w. refl) small_space 0x1000 0x6000 400 0x2000 3 none
      small_space-Tiles (omega arith) (omega arith) refl (omega arith) refl (omega arith)
      (omega arith) refl

used_page-Inside : Inside used_page used_page
used_page-Inside = record {
  filled = omega arith;
  low = omega arith;
  high = omega arith;
  word = omega arith;
}

free_vma_region-Updates_example :
    (s' : Allocator ℕ) × (free_vma_region counting small_space used_page ≡ ok (s', true))
    × Updates (λ a. covers a used_page) (false, 0) 0x6000 small_space.regions s'.regions
free_vma_region-Updates_example =
    free_vma_region-Updates counting small_space used_page [] used_page (free_pages ∷ []) 0x1000
      0x6000 400 refl small_space-Tiles (omega arith) used_page-Inside (inl refl) refl refl
      (omega arith) refl
