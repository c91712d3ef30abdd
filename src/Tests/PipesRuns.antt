-- ===== src/Tests/PipesRuns.antt =====
-- Runs of kernel/vfs/pipe_manager.cpp over a pipe of four bytes.
use influx.Base.{ℕ, ◌+◌, ◌++◌, length, ◌≡◌, refl, [], ◌∷◌, false, some, arith}
use influx.Base.Run.{ok}
use influx.Structures.Fifo.Contents.{IsValid, contents, length-contents}
use influx.Vfs.Data.{invalid_file, pipe_closed}
use influx.Vfs.Pipes.{Pipe, Surroundings, read, write, read_file, write_file}
use influx.Vfs.Pipes.Flow.{read-write}
use influx.Tests.VfsRuns.{blank_info}

abbrev alone : ℕ → Surroundings
alone time = record { now = time; wait = λ p. (p, false) }

-- One byte held, and both ends open.
abbrev one_byte : Pipe
one_byte = record {
  buffer = record { buffer = 9 ∷ 7 ∷ 0 ∷ 0 ∷ []; max_size = 4; head = 1; tail = 2 };
  amount_of_read_file_descriptors = 1;
  amount_of_write_file_descriptors = 1;
  file = blank_info;
}

one_byte-IsValid : IsValid one_byte.buffer
one_byte-IsValid = record {
  roomy = omega arith;
  sized = refl;
  ordered = omega arith;
  fits = omega arith;
  word = omega arith;
}

read-write_example :
    (q q' : Pipe) × (write 2 (alone 5) (1 ∷ 2 ∷ []) one_byte ≡ ok (q, some 2))
    × (read (alone 6) (length (contents one_byte.buffer) + 2) q
        ≡ (q', contents one_byte.buffer ++ 1 ∷ 2 ∷ []))
    × (contents q'.buffer ≡ [])
read-write_example =
    read-write 0 (alone 5) (alone 6) (1 ∷ 2 ∷ []) one_byte one_byte-IsValid (omega arith)
      (omega arith) (omega arith) (omega (arith, length-contents one_byte.buffer one_byte-IsValid))
      (ground arith)

-- What is held is the byte 7.
held_byte : read (alone 6) 4 one_byte ≡ (
  record one_byte {
    buffer = record { buffer = 9 ∷ 7 ∷ 0 ∷ 0 ∷ []; max_size = 4; head = 2; tail = 2 };
    file = record blank_info { accessed = 6 };
  },
  7 ∷ [],
)
unfolding read influx.Structures.Fifo.normalise influx.Structures.Fifo.load_from
held_byte = refl

-- A write with no reader.
closed_pipe :
    write_file 2
      (alone 5)
      false
      0
      (1 ∷ [])
      (some (record one_byte { amount_of_read_file_descriptors = 0 }) ∷ [])
    ≡ ok (
      some (record one_byte { amount_of_read_file_descriptors = 0 }) ∷ [],
      (some pipe_closed, 18446744073709551615),
    )
unfolding write_file
closed_pipe = refl

missing_pipe :
    read_file (alone 5) false 1 4 (some one_byte ∷ [])
    ≡ ok (some one_byte ∷ [], some invalid_file, [])
unfolding read_file
missing_pipe = refl
