-- ===== src/Structures/Fifo.antt =====
-- The byte ring of kernel/structures/fifo.cpp.
pub mod Window
pub mod Contents
pub mod Queue
use influx.Base.{
  ℕ, zero, suc, ◌+◌, ◌-◌, ◌*◌, ◌%◌, ◌≤◌, ◌<◌, Bool, true, false, List, [], ◌∷◌, length, set, get_or,
  ltb, if◌then◌else◌, add64, sub64,
}

pub record Fifo : Type 0 where
  pub buffer : List ℕ
  pub max_size : ℕ
  pub head : ℕ
  pub tail : ℕ

-- The constructor, over the memory that `buffer` points to.
unfoldable pub new : List ℕ → ℕ → Fifo
new buffer max_size = record { buffer = buffer; max_size = max_size; head = 0; tail = 0 }

unfoldable pub current_size : Fifo → ℕ
current_size f = sub64 f.tail f.head

-- The loop of `push`: byte `i - _tail` of the source goes to slot `i % _max_size`.
unfoldable pub store_from : ℕ → ℕ → List ℕ → List ℕ → List ℕ
store_from m i [] buffer = buffer
store_from m i (b ∷ bs) buffer = store_from m (add64 i 1) bs (set buffer (i % m) b)

-- The loop of `pop`, which reads `count` bytes from slot `i % _max_size` on.
unfoldable pub load_from : ℕ → ℕ → ℕ → List ℕ → List ℕ
load_from m i zero buffer = []
load_from m i (suc count) buffer = get_or buffer (i % m) 0 ∷ load_from m (add64 i 1) count buffer

-- The block that ends both methods.
unfoldable pub normalise : Fifo → Fifo
normalise f =
    if ltb (f.head % f.max_size) (f.tail % f.max_size)
    then record f { tail = f.tail % f.max_size; head = f.head % f.max_size }
    else f

-- `count` is the length of the list.
unfoldable pub push : List ℕ → Fifo → Fifo × Bool
push bytes f = if ltb f.max_size (add64 (current_size f) (length bytes)) then (f, false) else (
  normalise (record f {
    buffer = store_from f.max_size f.tail bytes f.buffer;
    tail = add64 f.tail (length bytes);
  }),
  true,
)

-- The bytes that a failed call leaves in the caller's buffer are not part of the result.
unfoldable pub pop : ℕ → Fifo → Fifo × List ℕ × Bool
pop count f = if ltb (current_size f) count then (f, [], false) else (
  normalise (record f { head = add64 f.head count }),
  load_from f.max_size f.head count f.buffer,
  true,
)
