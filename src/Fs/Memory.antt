-- ===== src/Fs/Memory.antt =====
-- Bytes in memory, and the numbers of a structure that are laid out in them, the lowest byte first.
pub mod Laws
use influx.Base.{ℕ, zero, suc, ◌+◌, ◌*◌, ◌/◌, ◌%◌, List, [], ◌∷◌, ◌++◌, length, take, drop}

abbrev pub Memory : Type 0
Memory = List ℕ

-- The number in these bytes, and the bytes of a number of this width.
unfoldable pub number : Memory → ℕ
number [] = 0
number (b ∷ bytes) = b + number bytes * 256

unfoldable pub bytes_of : ℕ → ℕ → Memory
bytes_of zero n = []
bytes_of (suc width) n = (n % 256) ∷ bytes_of width (n / 256)

unfoldable pub load : ℕ → ℕ → Memory → Memory
load offset width m = take width (drop offset m)

unfoldable pub store : ℕ → Memory → Memory → Memory
store offset bytes m = take offset m ++ (bytes ++ drop (offset + length bytes) m)

-- A member of a structure.
pub record Field : Type 0 where
  pub width : ℕ
  pub offset : ℕ

abbrev pub field : ℕ → ℕ → Field
field width offset = record { width = width; offset = offset }

unfoldable pub get : Field → Memory → ℕ
unfolding number load
get f m = number (load f.offset f.width m)

unfoldable pub put : Field → ℕ → Memory → Memory
unfolding bytes_of store
put f value m = store f.offset (bytes_of f.width value) m
