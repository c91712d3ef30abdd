-- ===== src/Fs/Ext2/ByteBitmap.antt =====
-- The bitmap of include/kernel/structures/bitmap.h with nodes of `uint8_t` in the order of their bits, as
-- kernel/fs/ext2/ext2.cpp puts it over a buffer and searches it once.
use influx.Base.{
  ℕ, zero, suc, ◌+◌, ◌-◌, ◌/◌, ◌%◌, ◌^◌, Bool, true, false, not, Option, none, some, set, get_elem?,
  leb, ◌==◌, if◌then◌else◌,
}
use influx.Base.Run.{Run, ok, fault, ◌>>=◌, out_of_bounds, null_pointer}
use Prim.Native.Nat.{bit_and, bit_or}
use influx.Fs.Memory.{Memory}

unfoldable pub byte_get : ℕ → ℕ → Bool
byte_get byte shift = not (bit_and byte (2 ^ shift) / 2 ^ shift == 0)

unfoldable pub byte_set : ℕ → ℕ → Bool → ℕ
byte_set byte shift true = bit_or byte (2 ^ shift)
byte_set byte shift false = bit_and byte (255 - 2 ^ shift)

-- `bitmap[index]` of a bitmap of this size.
unfoldable pub read_bit : ℕ → Memory → ℕ → Run Bool
unfolding byte_get
read_bit size bytes index =
    if leb size index then fault null_pointer else elim (get_elem? bytes (index / 8)) [
      | none ↦ fault out_of_bounds
      | some byte ↦ ok (byte_get byte (index % 8))
    ]

unfoldable pub write_bit : ℕ → Memory → ℕ → Bool → Run Memory
unfolding byte_set
write_bit size bytes index value =
    if leb size index then fault null_pointer else elim (get_elem? bytes (index / 8)) [
      | none ↦ fault out_of_bounds
      | some byte ↦ ok (set bytes (index / 8) (byte_set byte (index % 8) value))
    ]

-- The loop of `search_bit(false)` over `count` indices from `index` on, in a new bitmap.
unfoldable pub search_free : ℕ → Memory → ℕ → ℕ → Run (Option ℕ)
unfolding read_bit
search_free size bytes zero index = ok none
search_free size bytes (suc count) index = read_bit size bytes index >>= λ taken.
    let rest = search_free size bytes count (index + 1) in if taken then rest else ok (some index)
