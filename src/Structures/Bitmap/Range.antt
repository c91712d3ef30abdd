-- ===== src/Structures/Bitmap/Range.antt =====
-- Runs of bits in include/kernel/structures/bitmap.h: `set(start, size, value)` and
-- `search(batch_size, value, batch_index)`.
use influx.Base.{
  ℕ, zero, suc, ◌+◌, ◌-◌, ◌*◌, ◌/◌, ◌%◌, Bool, true, false, not, ◌&&◌, Option, none, some, set,
  get_elem?, ltb, leb, ◌==◌, if◌then◌else◌, u64_mod, add64, sub64, min,
}
use influx.Base.Run.{Run, ok, fault, ◌>>=◌, out_of_bounds, out_of_fuel}
use influx.Structures.Bitmap.{Bitmap, bits_per_node, read_bit, write_bit, same_bit}

-- `count` bits from `index` on, one by one.
unfoldable pub write_bits : Bitmap → ℕ → ℕ → Bool → Run Bitmap
unfolding write_bit
write_bits b index zero value = ok b
write_bits b index (suc count) value =
    write_bit b index value >>= λ b'. write_bits b' (index + 1) count value

unfoldable pub full_node : Bool → ℕ
full_node true = u64_mod - 1
full_node false = 0

-- `count` whole nodes from `index` on.
unfoldable pub write_nodes : Bitmap → ℕ → ℕ → Bool → Run Bitmap
unfolding full_node
write_nodes b index zero value = ok b
write_nodes b index (suc count) value = elim (get_elem? b.nodes index) [
  | none ↦ fault out_of_bounds
  | some node ↦
      write_nodes (record b { nodes = set b.nodes index (full_node value) }) (index + 1) count value
]

-- The rounds of the last loop, whose counter is a `uint8_t`.
unfoldable pub write_tail : Bitmap → ℕ → ℕ → ℕ → Bool → Run Bitmap
unfolding write_bit
write_tail b base i zero value = ok b
write_tail b base i (suc count) value =
    write_bit b (add64 base i) value >>= λ b'. write_tail b' base ((i + 1) % 256) count value

-- The rounds that a division of `total` by the width of a node, rounded up, wants.
unfoldable pub rounds : ℕ → ℕ
rounds total = (total + (bits_per_node - 1)) / bits_per_node

-- `set(start, size, value)`. The subtraction that counts the whole nodes wraps.
unfoldable pub set_range : Bitmap → ℕ → ℕ → Bool → Run Bitmap
unfolding write_bits write_nodes write_tail rounds
set_range b start size value =
    let offset = start % bits_per_node in
    let amount_of_nodes =
      sub64 (sub64 size offset) (add64 start size % bits_per_node) / bits_per_node in
    let head = if offset == 0 then 0 else min (bits_per_node - offset) size in
    let start_node = if offset == 0 then start / bits_per_node else start / bits_per_node + 1 in
    let whole = min (min amount_of_nodes (b.size / bits_per_node)) (rounds (size - head)) in
    let tail = size - head - whole * bits_per_node in
    if ltb b.size start
    then ok b
    else write_bits b start head value >>= λ b₁. write_nodes b₁ start_node whole value >>= λ b₂.
        write_tail b₂ ((start_node + amount_of_nodes) * bits_per_node % u64_mod) 0 tail value

-- Whether `count` bits from `index` on all have the value: the inner loop of `search`.
unfoldable pub all_bits : Bitmap → Bool → ℕ → ℕ → Run Bool
unfolding read_bit same_bit
all_bits b value zero index = ok true
all_bits b value (suc count) index = read_bit b index >>= λ v.
    let rest = all_bits b value count (index + 1) in if same_bit v value then rest else ok false

-- The state of the loop of `search`: the start and the size of the batch, and the node.
pub record Batch : Type 0 where
  pub start : ℕ
  pub size : ℕ
  pub node : ℕ

unfoldable pub restart : Batch → Batch
restart s = record { start = s.node + 1; size = 0; node = s.node + 1 }

unfoldable pub extend : ℕ → Batch → Batch
extend n s = record s { size = s.size + n; node = s.node + 1 }

-- One round. A reset inside the inner loop and a match of the rest exclude each other, but for a batch
-- of no bits.
unfoldable pub search_round : Bitmap → ℕ → Bool → Batch → Run Batch
unfolding all_bits restart extend full_node
search_round b batch_size value s =
    let missing = batch_size - s.size in
    if leb bits_per_node missing
    then elim (get_elem? b.nodes s.node) [
      | none ↦ fault out_of_bounds
      | some node ↦ ok (if node == full_node value then extend bits_per_node s else restart s)
    ]
    else all_bits b value missing (s.node * bits_per_node) >>= λ all.
        ok (if all then extend missing s else restart s)

unfoldable pub search_loop : ℕ → Bitmap → ℕ → Bool → ℕ → Batch → Run Batch
unfolding search_round
search_loop zero b batch_size value end_node s = fault out_of_fuel
search_loop (suc fuel) b batch_size value end_node s =
    let rest = search_round b batch_size value s >>= search_loop fuel b batch_size value end_node in
    if not (s.size == batch_size) && leb s.node end_node then rest else ok s

-- The private `search`: the index of the batch.
unfoldable pub search_nodes : Bitmap → ℕ → ℕ → ℕ → Bool → Run (Option ℕ)
unfolding search_loop
search_nodes b start_node end_node batch_size value =
    search_loop (suc (end_node + 1 - start_node)) b batch_size value end_node
      (record { start = start_node; size = 0; node = start_node })
    >>= λ s. ok (if s.size == batch_size then some (s.start * bits_per_node) else none)

unfoldable pub search_rest : Bitmap → ℕ → Bool → Option ℕ → Run (Option ℕ)
unfolding search_nodes
search_rest b batch_size value (some index) = ok (some index)
search_rest b batch_size value none =
    if b.next_search_node == 0
    then ok none
    else search_nodes b 0 b.next_search_node batch_size value

unfoldable pub found_batch : Bitmap → ℕ → Option ℕ → Bitmap
found_batch b batch_size none = b
found_batch b batch_size (some index) = record b {
  next_search_node = index / bits_per_node + batch_size / bits_per_node;
}

-- `search(batch_size, value, batch_index)`
unfoldable pub search : Bitmap → ℕ → Bool → Run (Bitmap × Option ℕ)
unfolding search_nodes search_rest found_batch
search b batch_size value =
    search_nodes b b.next_search_node (b.size / bits_per_node) batch_size value >>= λ first.
    search_rest b batch_size value first >>= λ found. ok (found_batch b batch_size found, found)
