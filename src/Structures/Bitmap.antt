-- ===== src/Structures/Bitmap.antt =====
-- The bitmap of include/kernel/structures/bitmap.h with nodes of `uint64_t`.
pub mod Range
pub mod Bit
pub mod SearchBit
use influx.Base.{
  ℕ, zero, suc, ◌+◌, ◌-◌, ◌*◌, ◌/◌, ◌%◌, ◌^◌, Bool, true, false, not, ◌&&◌, List, [], ◌∷◌, Option,
  none, some, length, set, get_elem?, ltb, leb, ◌==◌, if◌then◌else◌, u64_mod,
}
use influx.Base.Run.{Run, ok, fault, ◌>>=◌, out_of_bounds, null_pointer}
use Prim.Native.Nat.{bit_and, bit_or}

-- `nodes` is the memory that `_bitmap` points to.
pub record Bitmap : Type 0 where
  pub reversed : Bool
  pub nodes : List ℕ
  pub size : ℕ
  pub next_search_node : ℕ

abbrev pub bits_per_node : ℕ
bits_per_node = 64

-- `bit`: `mask_shift_amount`, `get` and `set` of one node.
unfoldable pub mask_shift_amount : Bool → ℕ → ℕ
mask_shift_amount reversed node_index =
    if reversed then bits_per_node - node_index - 1 else node_index

unfoldable pub node_get : ℕ → ℕ → Bool
node_get node shift = not (bit_and node (2 ^ shift) / 2 ^ shift == 0)

unfoldable pub node_set : ℕ → ℕ → Bool → ℕ
node_set node shift true = bit_or node (2 ^ shift)
node_set node shift false = bit_and node (u64_mod - 1 - 2 ^ shift)

-- A read and a write of the bit that `get_bit_for_index` refers to.
unfoldable pub read_bit : Bitmap → ℕ → Run Bool
unfolding node_get mask_shift_amount
read_bit b index = elim (get_elem? b.nodes (index / bits_per_node)) [
  | none ↦ fault out_of_bounds
  | some node ↦ ok (node_get node (mask_shift_amount b.reversed (index % bits_per_node)))
]

unfoldable pub write_bit : Bitmap → ℕ → Bool → Run Bitmap
unfolding node_set mask_shift_amount
write_bit b index value = elim (get_elem? b.nodes (index / bits_per_node)) [
  | none ↦ fault out_of_bounds
  | some node ↦ ok (record b {
    nodes =
        set b.nodes (index / bits_per_node)
          (node_set node (mask_shift_amount b.reversed (index % bits_per_node)) value);
  })
]

-- `get(index)`, which is also `operator[]`: behind the end the bit refers to the null pointer.
unfoldable pub get : Bitmap → ℕ → Run Bool
unfolding read_bit
get b index = if leb b.size index then fault null_pointer else read_bit b index

-- `bitmap[index] = value`
unfoldable pub assign : Bitmap → ℕ → Bool → Run Bitmap
unfolding write_bit
assign b index value = if leb b.size index then fault null_pointer else write_bit b index value

-- `set(index, value)`
unfoldable pub set_bit : Bitmap → ℕ → Bool → Run Bitmap
unfolding write_bit
set_bit b index value = if ltb index b.size then write_bit b index value else ok b

unfoldable pub same_bit : Bool → Bool → Bool
same_bit true v = v
same_bit false v = not v

-- The loop of the private `search_bit` over `count` indices from `index` on.
unfoldable pub search_from : Bitmap → Bool → ℕ → ℕ → Run (Option ℕ)
unfolding get same_bit
search_from b value zero index = ok none
search_from b value (suc count) index = get b index >>= λ v.
    let rest = search_from b value count (index + 1) in
    if same_bit v value then ok (some index) else rest

-- The private `search_bit(start, end, value)`.
unfoldable pub search_between : Bitmap → Bool → ℕ → ℕ → Run (Option ℕ)
unfolding search_from
search_between b value start stop = search_from b value (stop - start) start

-- Where `search_bit` looks a second time, from the start up to the node where it began.
unfoldable pub search_again : Bitmap → Bool → Option ℕ → Run (Option ℕ)
unfolding search_between
search_again b value (some index) = ok (some index)
search_again b value none =
    if b.next_search_node == 0
    then ok none
    else search_between b value 0 (b.next_search_node * bits_per_node)

unfoldable pub found_bit : Bitmap → Option ℕ → Bitmap
found_bit b none = b
found_bit b (some index) = record b { next_search_node = index / bits_per_node }

-- `search_bit(value, bit_index)`
unfoldable pub search_bit : Bitmap → Bool → Run (Bitmap × Option ℕ)
unfolding search_between search_again found_bit
search_bit b value = search_between b value (b.next_search_node * bits_per_node) b.size >>= λ first.
    search_again b value first >>= λ found. ok (found_bit b found, found)
