-- ===== src/Tests/AllocatorRuns.antt =====
-- Runs of include/kernel/structures/bitmap.h and kernel/memory/physical_allocator.cpp.
use influx.Base.{
  ℕ, ◌≡◌, ◌≢◌, refl, false, ◌&&◌, [], ◌∷◌, Option, none, some, if◌then◌else◌, ◌==◌, ltb, arith,
}
use influx.Base.Run.{ok}
use influx.Structures.Bitmap.{Bitmap, assign, found_bit, search_bit}
use influx.Structures.Bitmap.Bit.{bit}
use influx.Structures.Bitmap.SearchBit.{IsReady, Finds, search_bit-Finds}
use influx.Memory.PhysicalAllocator.{alloc_page, free_page}
use influx.Memory.PhysicalAllocator.Pages.{
  Allocates, alloc_page-Allocates, free_page-Updates, free_page-alloc_page,
  alloc_page-alloc_page_ne,
}

-- 80 pages, of which the first three and page 66 are in use, and the next search starts at page 64.
abbrev pages : Bitmap
pages = record { reversed = false; nodes = 7 ∷ 4 ∷ []; size = 80; next_search_node = 1 }

pages-IsReady : IsReady pages
pages-IsReady = record { backed = omega arith; placed = omega arith }

search_bit-Finds_example :
    (r : Option ℕ) × (search_bit pages false ≡ ok (found_bit pages r, r))
    × Finds pages false r
    × IsReady (found_bit pages r)
search_bit-Finds_example = search_bit-Finds pages false pages-IsReady

alloc_page-Allocates_example :
    (b' : Bitmap) × (r : Option ℕ) × (alloc_page pages none ≡ ok (b', r)) × Allocates pages b' r
alloc_page-Allocates_example = alloc_page-Allocates pages pages-IsReady

free_page-Updates_example :
    (b' : Bitmap) × (free_page pages 66 ≡ ok b')
    × ((j : ℕ) → bit b' j ≡ (if ltb 66 80 && 66 == j then false else bit pages j))
    × (b'.size ≡ 80)
    × IsReady b'
free_page-Updates_example = free_page-Updates pages 66 pages-IsReady

abbrev pages_with_64 : Bitmap
pages_with_64 = record pages { nodes = 7 ∷ 5 ∷ [] }

abbrev pages_with_65 : Bitmap
pages_with_65 = record pages { nodes = 7 ∷ 7 ∷ [] }

alloc_64 : alloc_page pages none ≡ ok (pages_with_64, some 64)
unfolding alloc_page search_bit assign
alloc_64 = refl

alloc_65 : alloc_page pages_with_64 none ≡ ok (pages_with_65, some 65)
unfolding alloc_page search_bit assign
alloc_65 = refl

free_page-alloc_page_example :
    (b₂ : Bitmap) × (free_page pages_with_64 64 ≡ ok b₂)
    × ((j : ℕ) → bit b₂ j ≡ bit pages j)
    × (b₂.size ≡ 80)
free_page-alloc_page_example = free_page-alloc_page pages pages-IsReady alloc_64

alloc_page-alloc_page_ne_example : ◌≢◌ {A = ℕ} 64 65
alloc_page-alloc_page_ne_example = alloc_page-alloc_page_ne pages pages-IsReady alloc_64 alloc_65
