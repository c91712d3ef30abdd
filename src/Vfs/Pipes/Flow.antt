-- ===== src/Vfs/Pipes/Flow.antt =====
-- What comes out of a pipe of kernel/vfs/pipe_manager.cpp that went in.
use influx.Base.{
  ℕ, suc, ◌+◌, ◌≤◌, ◌<◌, min, ◌≡◌, ◌≢◌, refl, sym, ap, ◌∙◌, true, false, List, [], ◌∷◌, ◌++◌,
  Option, none, some, length, length-append, take, ltb, leb, ◌==◌, if◌then◌else◌, u64_mod, add64,
  sub64, arith,
}
use mathlib.Core.List.{append-nil}
use influx.Base.Run.{Run, ok, ◌>>=◌}
use influx.Structures.Fifo.{Fifo, current_size, pop}
use influx.Structures.Fifo.Contents.{IsValid, contents, current_size-sub, length-contents}
use influx.Structures.Fifo.Queue.{has_room, push-contents, pop-contents}
use influx.Vfs.Pipes.{
  Pipe, Surroundings, take_bytes, read, is_full, put_bytes, write_loop, touch, written, write,
}

take_all : {A : Type 0} (xs : List A) → take (length xs) xs ≡ xs
take_all [] = refl
take_all (x ∷ xs) = ap (◌∷◌ x) (take_all xs)

size_lem : (f : Fifo) → IsValid f → current_size f ≡ length (contents f)
size_lem f v = current_size-sub f v ∙ sym (length-contents f v)

-- Bytes that fit are put behind those held.
put_bytes-contents :
    (bytes : List ℕ) (p : Pipe)
    → IsValid p.buffer
    → p.buffer.max_size < u64_mod
    → p.buffer.tail + length bytes < u64_mod
    → length (contents p.buffer) + length bytes ≤ p.buffer.max_size
    → IsValid (put_bytes bytes p).0.buffer
      × (contents (put_bytes bytes p).0.buffer ≡ contents p.buffer ++ bytes)
      × ((put_bytes bytes p).1 ≡ length bytes)
unfolding put_bytes
put_bytes-contents bytes p v small word fit =
    let size = size_lem p.buffer v in
    let all : min (length bytes) (sub64 p.buffer.max_size (current_size p.buffer)) ≡ length bytes =
      omega arith in
    let room : has_room bytes p.buffer ≡ true = ground arith in
    let (valid, done, held) = push-contents p.buffer bytes v word in
    rw all (rw (take_all bytes) (valid, rw room at held, refl))

write_loop-done :
    (fuel : ℕ) (around : Surroundings) (bytes : List ℕ) (amount : ℕ) (p : Pipe)
    → amount ≡ length bytes
    → write_loop (suc fuel) around bytes amount p ≡ ok (p, some amount)
unfolding write_loop
write_loop-done fuel around bytes amount p e =
    let over : ltb amount (length bytes) ≡ false = ground arith in rw (write_loop, over) refl

not_zero : (n : ℕ) → n ≢ 0 → (n == 0) ≡ false
not_zero n h = ground arith

-- One round with a reader and some room.
write_loop-round :
    (fuel : ℕ) (around : Surroundings) (bytes : List ℕ) (p : Pipe) (r : Run (Pipe × Option ℕ))
    → 0 < length bytes
    → p.amount_of_read_file_descriptors ≢ 0
    → is_full p ≡ false
    → write_loop fuel around bytes (add64 0 (put_bytes bytes p).1) (put_bytes bytes p).0 ≡ r
    → write_loop (suc fuel) around bytes 0 p ≡ r
unfolding write_loop
write_loop-round fuel around bytes p r some_bytes readers room run =
    let more : ltb 0 (length bytes) ≡ true = ground arith in
    let read_end = not_zero p.amount_of_read_file_descriptors readers in
    rw (write_loop, more) (rw read_end (rw room run))

written_lem :
    (around : Surroundings) (p : Pipe) (n : ℕ)
    → written around (p, some n) ≡ (touch around p, some n)
unfolding written
written_lem around p n = refl

pub write-fits :
    (fuel : ℕ) (around : Surroundings) (bytes : List ℕ) (p : Pipe)
    → IsValid p.buffer
    → p.buffer.max_size < u64_mod
    → p.buffer.tail + length bytes < u64_mod
    → 0 < length bytes
    → length (contents p.buffer) + length bytes ≤ p.buffer.max_size
    → p.amount_of_read_file_descriptors ≢ 0
    → (q : Pipe) × (write (suc (suc fuel)) around bytes p ≡ ok (q, some (length bytes)))
      × IsValid q.buffer
      × (contents q.buffer ≡ contents p.buffer ++ bytes)
unfolding write
write-fits fuel around bytes p v small word some_bytes fit readers =
    let (valid, held, amount) = put_bytes-contents bytes p v small word fit in
    let size = size_lem p.buffer v in
    let room : is_full p ≡ false = unfold is_full in (ground arith) in
    let all : add64 0 (put_bytes bytes p).1 ≡ length bytes = omega arith in
    let loop =
      write_loop-round (suc fuel) around bytes p
        (ok ((put_bytes bytes p).0, some (add64 0 (put_bytes bytes p).1))) some_bytes readers room
        (write_loop-done fuel around bytes (add64 0 (put_bytes bytes p).1) (put_bytes bytes p).0
          all) in
    let read_end = not_zero p.amount_of_read_file_descriptors readers in
    let body = write_loop (suc (suc fuel)) around bytes 0 p in
    (
      touch around (put_bytes bytes p).0,
      ap (λ b. if b then ok (p, none) else body >>= λ r. ok (written around r)) read_end
          ∙ ap (λ r. r >>= λ x. ok (written around x)) loop
          ∙ ap (λ x. ok x)
              (written_lem around (put_bytes bytes p).0 (add64 0 (put_bytes bytes p).1))
          ∙ ap (λ n. ok (touch around (put_bytes bytes p).0, some n)) all,
      unfold touch in valid,
      unfold touch in held,
    )

split_all : (xs ys zs : List ℕ) → xs ≡ ys ++ zs → length ys ≡ length xs → (ys ≡ xs) × (zs ≡ [])
split_all xs ys [] e n = (sym (e ∙ append-nil ys), refl)
split_all xs ys (z ∷ zs) e n =
    absurd (omega (arith, length-append ys (z ∷ zs), ap (length {A = ℕ}) e))

-- A read of all that is there, and no less than one byte.
pub read-all :
    (around : Surroundings) (p : Pipe)
    → IsValid p.buffer
    → 0 < length (contents p.buffer)
    → (q : Pipe) × (read around (length (contents p.buffer)) p ≡ (q, contents p.buffer))
      × (contents q.buffer ≡ [])
unfolding read
read-all around p v some_bytes =
    let n = length (contents p.buffer) in
    let size = size_lem p.buffer v in
    let something : (current_size p.buffer == 0) ≡ false = ground arith in
    let enough : leb n n ≡ true = ground arith in
    let amount : min n (current_size p.buffer) ≡ n = omega arith in
    let popped = pop n p.buffer in
    let (valid, done, held, count) = pop-contents p.buffer n v in
    let (all, none_left) =
      split_all (contents p.buffer) popped.1 (contents popped.0) held (rw enough at count) in
    let q : Pipe = record p {
      buffer = popped.0;
      file = record (p.file) { accessed = around.now };
    } in
    (q, rw (read, something) (rw (take_bytes, amount) (ap (λ bytes. (q, bytes)) all)), none_left)

-- A `write` of at least one byte, into a pipe with a reader, a size and positions of 64 bits and room
-- for all of the bytes, answers with fuel for two rounds the number of its bytes; a `read` of as many
-- bytes as the pipe then holds answers what it held before, followed by those bytes, and leaves it
-- empty.
pub read-write :
    (fuel : ℕ) (here there : Surroundings) (bytes : List ℕ) (p : Pipe)
    → IsValid p.buffer
    → p.buffer.max_size < u64_mod
    → p.buffer.tail + length bytes < u64_mod
    → 0 < length bytes
    → length (contents p.buffer) + length bytes ≤ p.buffer.max_size
    → p.amount_of_read_file_descriptors ≢ 0
    → (q q' : Pipe) × (write (suc (suc fuel)) here bytes p ≡ ok (q, some (length bytes)))
      × (read there (length (contents p.buffer) + length bytes) q
          ≡ (q', contents p.buffer ++ bytes))
      × (contents q'.buffer ≡ [])
read-write fuel here there bytes p v small word some_bytes fit readers =
    let (q, run, valid, held) = write-fits fuel here bytes p v small word some_bytes fit readers in
    let total : length (contents q.buffer) ≡ length (contents p.buffer) + length bytes =
      ap (length {A = ℕ}) held ∙ length-append (contents p.buffer) bytes in
    let (q', got, empty) = read-all there q valid (omega arith) in
    (q, q', run, ap (λ n. read there n q) (sym total) ∙ got ∙ ap (λ bs. (q', bs)) held, empty)
