-- ===== src/Structures/Fifo/Queue.antt =====
-- `push` and `pop` of kernel/structures/fifo.cpp against the queue of bytes that the ring stands for.
use influx.Base.{
  ℕ, ◌+◌, ◌-◌, ◌≤◌, ◌<◌, ◌≡◌, refl, sym, ap, ◌∙◌, Bool, true, false, List, ◌++◌, length, ltb, leb,
  if◌then◌else◌, add64, u64_mod, arith, Bool-cases, inl, inr,
}
use influx.Structures.Fifo.{Fifo, current_size, push, pop, store_from, load_from}
use influx.Structures.Fifo.Window.{
  window, load_from-window, length-window, window-append, window-store_from, window-store_from_self,
  length-store_from,
}
use influx.Structures.Fifo.Contents.{
  IsValid, contents, current_size-sub, contents-window, length-contents, normalise-IsValid,
  contents-normalise,
}

-- Whether the bytes fit beside those held.
abbrev pub has_room : List ℕ → Fifo → Bool
has_room bytes f = leb (length (contents f) + length bytes) f.max_size

-- The state that `push` hands to the block at its end.
pushed : List ℕ → Fifo → Fifo
pushed bytes f = record f {
  buffer = store_from f.max_size f.tail bytes f.buffer;
  tail = add64 f.tail (length bytes);
}

module _ (f : Fifo) (bytes : List ℕ) (v : IsValid f) (word : f.tail + length bytes < u64_mod) where
  size_room :
      ltb f.max_size (add64 (current_size f) (length bytes))
      ≡ ltb f.max_size (length (contents f) + length bytes)
  size_room =
      let plain : add64 (f.tail - f.head) (length bytes) ≡ f.tail - f.head + length bytes =
        omega arith in
      rw (current_size-sub f v, length-contents f v, plain)

  tail_plain : add64 f.tail (length bytes) ≡ f.tail + length bytes
  tail_plain = omega arith

  pushed-IsValid : length (contents f) + length bytes ≤ f.max_size → IsValid (pushed bytes f)
  unfolding pushed
  pushed-IsValid room =
      let n = length-contents f v in
      record {
        roomy = v.roomy;
        sized = length-store_from f.max_size f.tail bytes f.buffer ∙ v.sized;
        ordered = omega (arith, v.ordered, tail_plain);
        fits = omega (arith, v.ordered, tail_plain);
        word = omega (arith, tail_plain);
      }

  contents-pushed :
      length (contents f) + length bytes ≤ f.max_size
      → contents (pushed bytes f) ≡ contents f ++ bytes
  unfolding pushed
  contents-pushed room =
      let n = length-contents f v in
      let m = f.max_size in
      let stored = store_from m f.tail bytes f.buffer in
      let held = f.tail - f.head in
      let total : add64 f.tail (length bytes) - f.head ≡ held + length bytes =
        omega (arith, v.ordered, tail_plain) in
      let at_tail : f.head + held ≡ f.tail = omega (arith, v.ordered) in
      contents-window (pushed bytes f) (pushed-IsValid room)
      ∙ ap (λ k. window m f.head k stored) total
      ∙ window-append m f.head held (length bytes) stored
      ∙ ap (λ w. w ++ window m (f.head + held) (length bytes) stored)
          (window-store_from m f.head held f.tail bytes f.buffer (omega arith)
              (omega (arith, v.ordered)) word
            ∙ sym (contents-window f v))
      ∙ ap (λ j. contents f ++ window m j (length bytes) stored) at_tail
      ∙ ap (◌++◌ (contents f))
          (window-store_from_self m f.tail bytes f.buffer v.sized (omega arith) word)

  -- For a valid ring whose tail index stays below 2^64 with the bytes added: `push` of bytes that fit
  -- answers true and appends them to the bytes held; of bytes that do not fit it answers false and
  -- leaves the bytes held; the ring stays valid.
  pub push-contents :
      IsValid (push bytes f).0
      × ((push bytes f).1 ≡ has_room bytes f)
      × (contents (push bytes f).0 ≡ (if has_room bytes f then contents f ++ bytes else contents f))
  unfolding push pushed
  push-contents = elim (Bool-cases (ltb f.max_size (length (contents f) + length bytes))) [
    | inl full ↦
        let no_room : has_room bytes f ≡ false = ground arith in
        rw (size_room, full, no_room) (v, refl, refl)
    | inr room ↦
        let some_room : has_room bytes f ≡ true = ground arith in
        let fit : length (contents f) + length bytes ≤ f.max_size = ground arith in
        rw (size_room, room, some_room)
          (
            normalise-IsValid (pushed bytes f) (pushed-IsValid fit),
            refl,
            contents-normalise (pushed bytes f) (pushed-IsValid fit) ∙ contents-pushed fit,
          )
  ]

-- The state that `pop` hands to the block at its end.
popped : ℕ → Fifo → Fifo
popped count f = record f { head = add64 f.head count }

module _ (f : Fifo) (count : ℕ) (v : IsValid f) where
  popped-IsValid : count ≤ f.tail - f.head → IsValid (popped count f)
  unfolding popped
  popped-IsValid h =
      let plain : add64 f.head count ≡ f.head + count = omega (arith, v.ordered, v.word) in
      record {
        roomy = v.roomy;
        sized = v.sized;
        ordered = omega (arith, v.ordered, plain);
        fits = omega (arith, v.fits, plain);
        word = v.word;
      }

  contents-popped :
      count ≤ f.tail - f.head
      → contents f ≡ load_from f.max_size f.head count f.buffer ++ contents (popped count f)
  unfolding popped
  contents-popped h =
      let m = f.max_size in
      let plain : add64 f.head count ≡ f.head + count = omega (arith, v.ordered, v.word) in
      let split : f.tail - f.head ≡ count + (f.tail - add64 f.head count) = omega (arith, plain) in
      let rest = f.tail - add64 f.head count in
      contents-window f v
      ∙ ap (λ k. window m f.head k f.buffer) split
      ∙ window-append m f.head count rest f.buffer
      ∙ ap (λ w. w ++ window m (f.head + count) rest f.buffer)
          (sym (load_from-window m f.head count f.buffer (omega (arith, v.ordered, v.word))))
      ∙ ap (λ j. load_from m f.head count f.buffer ++ window m j rest f.buffer) (sym plain)
      ∙ ap (◌++◌ (load_from m f.head count f.buffer))
          (sym (contents-window (popped count f) (popped-IsValid h)))

  -- For a valid ring: `pop` of no more bytes than are held answers true and splits that many off the
  -- front of the bytes held; of more it answers false and takes none; the ring stays valid.
  pub pop-contents :
      let (rest, bytes, done) = pop count f in
      IsValid rest
      × (done ≡ leb count (length (contents f)))
      × (contents f ≡ bytes ++ contents rest)
      × (length bytes ≡ (if leb count (length (contents f)) then count else 0))
  unfolding pop popped
  pop-contents = elim (Bool-cases (ltb (current_size f) count)) [
    | inl short ↦
        let none_left : leb count (length (contents f)) ≡ false =
          ground (arith, length-contents f v, current_size-sub f v) in
        rw (short, none_left) (v, refl, refl, refl)
    | inr enough ↦
        let some_left : leb count (length (contents f)) ≡ true =
          ground (arith, length-contents f v, current_size-sub f v) in
        let h : count ≤ f.tail - f.head = ground (arith, current_size-sub f v) in
        rw (enough, some_left)
          (
            normalise-IsValid (popped count f) (popped-IsValid h),
            refl,
            contents-popped h
                ∙ ap (◌++◌ (load_from f.max_size f.head count f.buffer))
                    (sym (contents-normalise (popped count f) (popped-IsValid h))),
            ap length (
                  load_from-window f.max_size f.head count f.buffer
                    (omega (arith, v.ordered, v.word)))
                ∙ length-window f.max_size f.head count f.buffer,
          )
  ]
