-- ===== src/Memory/PhysicalAllocator.antt =====
-- The physical page allocator of kernel/memory/physical_allocator.cpp. Its state is `_bitmap`, in which a
-- set bit is a page in use.
pub mod Pages
use influx.Base.{
  ℕ, zero, suc, ◌+◌, ◌-◌, ◌*◌, ◌/◌, ◌%◌, Bool, true, false, List, [], ◌∷◌, Option, none, some, ltb,
  ◌==◌, if◌then◌else◌,
}
use influx.Base.Run.{Run, ok, ◌>>=◌}
use influx.Structures.Bitmap.{Bitmap, assign, search_bit}
use influx.Structures.Bitmap.Range.{set_range, search}

abbrev pub page_size : ℕ
page_size = 4096

-- An entry of the memory map of include/sys/boot_info.h.
pub data EntryType : Type 0 where
  available : EntryType
  reserved : EntryType
  kernel : EntryType

pub record MemoryEntry : Type 0 where
  pub base_addr : ℕ
  pub size : ℕ
  pub type : EntryType

-- `alloc_page`, with none for an index below 0, and none for the answer -1.
unfoldable pub alloc_found : Bitmap → Option ℕ → Run (Bitmap × Option ℕ)
alloc_found b none = ok (b, none)
alloc_found b (some page) = assign b page true >>= λ b'. ok (b', some page)

unfoldable pub alloc_page : Bitmap → Option ℕ → Run (Bitmap × Option ℕ)
unfolding alloc_found
alloc_page b none = search_bit b false >>= λ r. alloc_found r.0 r.1
alloc_page b (some page) = alloc_found b (some page)

unfoldable pub alloc_consecutive_found : ℕ → Bitmap → Option ℕ → Run (Bitmap × Option ℕ)
alloc_consecutive_found amount b none = ok (b, none)
alloc_consecutive_found amount b (some first) =
    set_range b first amount true >>= λ b'. ok (b', some first)

unfoldable pub alloc_consecutive_pages : Bitmap → ℕ → Run (Bitmap × Option ℕ)
unfolding alloc_consecutive_found
alloc_consecutive_pages b amount =
    search b amount false >>= λ r. alloc_consecutive_found amount r.0 r.1

unfoldable pub free_page : Bitmap → ℕ → Run Bitmap
free_page b page = if ltb page b.size then assign b page false else ok b

-- One entry of `parse_memory_map_to_bitmap`.
unfoldable pub parse_entry : Bitmap → EntryType → ℕ → ℕ → Run Bitmap
parse_entry b available base_addr size =
    let whole = size / page_size in
    if base_addr % page_size == 0
    then set_range b (base_addr / page_size) whole false
    else set_range b (base_addr / page_size + 1) (if whole == 0 then 0 else whole - 1) false
parse_entry b other base_addr size =
    set_range b (base_addr / page_size)
      (if size % page_size == 0 then size / page_size else size / page_size + 1) true

unfoldable pub parse_entries : List MemoryEntry → Bitmap → Run Bitmap
unfolding parse_entry
parse_entries [] b = ok b
parse_entries (e ∷ entries) b = parse_entry b e.type e.base_addr e.size >>= parse_entries entries

unfoldable pub parse_memory_map_to_bitmap : List MemoryEntry → Bitmap → Run Bitmap
unfolding parse_entries
parse_memory_map_to_bitmap entries b = set_range b 0 b.size true >>= parse_entries entries

-- `count_physical_memory` and `calc_amount_of_pages_for_bitmap` of kernel/memory/utils.cpp.
unfoldable pub count_physical_memory : List MemoryEntry → ℕ
count_physical_memory [] = 0
count_physical_memory (e ∷ entries) = e.size + count_physical_memory entries

unfoldable pub calc_amount_of_pages_for_bitmap : ℕ → ℕ
calc_amount_of_pages_for_bitmap bitmap_size =
    bitmap_size / page_size + (if bitmap_size % page_size == 0 then 0 else 1)
