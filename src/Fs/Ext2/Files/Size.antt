-- ===== src/Fs/Ext2/Files/Size.antt =====
-- The size of a file after `write_file` of kernel/fs/ext2/ext2.cpp.
use influx.Base.{
  ℕ, suc, false, ◌+◌, ◌*◌, ◌%◌, ◌^◌, ◌≤◌, ◌<◌, ◌≡◌, ◌≢◌, refl, ◌∙◌, true, Option, none, some,
  length, leb, ◌==◌, ==_iff, add64, u64_mod, arith, Bool-cases, inl, inr,
}
use influx.Fs.Memory.{Memory, Field, get, put}
use influx.Fs.Memory.Laws.{length-put, get-put_before, get-put_self}
use influx.Fs.Ext2.Inode
use influx.Fs.Ext2.Device.{Drive, Ext2, Fs, pure, ◌>>=◌, state, timestamp}
use influx.Fs.Ext2.Outcome.{Ensures, Ensures-bind, Ensures-then, Ensures-if}
use influx.Fs.Ext2.Blocks.{add_sectors, indirect_count, doubly_count, triply_count}
use influx.Fs.Ext2.Blocks.Kept.{get_block_for_offset-Kept}
use influx.Fs.Ext2.Files.{write_loop, size_change, grown_size, end_writing, end_loop, write_file}
use influx.Fs.Ext2.Files.Ends.{IsDone, write_loop-IsDone}

-- An inode of 128 bytes with this size.
record Sized (size : ℕ) (inode : Memory) : Type 0 where
  whole : length inode ≡ Inode.size_of
  sized : get Inode.size inode ≡ size

put-Sized :
    (size : ℕ) (f : Field) (v : ℕ) (inode : Memory)
    → 8 ≤ f.offset
    → f.offset + f.width ≤ 128
    → Sized size inode
    → Sized size (put f v inode)
put-Sized size f v inode behind within k = record {
  whole = length-put f v inode (omega (arith, k.whole)) ∙ k.whole;
  sized = get-put_before f Inode.size v inode (omega arith) (omega (arith, k.whole)) ∙ k.sized;
}

add_sectors-Sized :
    (size block_size : ℕ) (inode : Memory)
    → Sized size inode
    → Sized size (add_sectors block_size inode)
unfolding add_sectors
add_sectors-Sized size block_size inode k =
    put-Sized size Inode.disk_sectors_count _ _ (omega arith) (omega arith) k

resize-Sized :
    (size v : ℕ) (inode : Memory) → v < 2 ^ 32 → Sized size inode → Sized v (put Inode.size v inode)
resize-Sized size v inode small k = record {
  whole = length-put Inode.size v inode (omega (arith, k.whole)) ∙ k.whole;
  sized = get-put_self Inode.size v inode refl (omega (arith, k.whole)) ∙ omega arith;
}

-- The two differences that wrap around meet again.
grown_size-end :
    (old inode : Memory) (size offset amount written : ℕ)
    → get Inode.size old ≡ size
    → get Inode.size inode ≡ size
    → size < 2 ^ 32
    → offset < u64_mod
    → amount < u64_mod
    → written ≤ amount
    → grown_size inode (size_change old offset amount) amount written ≡ (offset + written) % 2 ^ 32
unfolding grown_size size_change
grown_size-end old inode size offset amount written e e' small o a part = rw (e, e') (omega arith)

-- After a write of some bytes the size is the end of what is written.
abbrev pub EndsAt : ℕ → Memory × ℕ → Type 0
EndsAt offset (inode, written) = written ≢ 0 → get Inode.size inode ≡ (offset + written) % 2 ^ 32

module _ {W : Type 0} (drive : Drive W) (size offset amount : ℕ) (old : Memory)
    (begun : Sized size old) (small : size < 2 ^ 32) (reachable : offset < u64_mod)
    (storable : amount < u64_mod) where
  end_writing-EndsAt :
      (inode : Memory) (written : ℕ) (s : Ext2 W)
      → Sized size inode
      → written ≤ amount
      → Ensures
          (EndsAt offset)
          (end_writing drive inode (size_change old offset amount) amount written s)
  unfolding end_writing
  end_writing-EndsAt inode written s k part =
      let grown = grown_size inode (size_change old offset amount) amount written in
      let ends =
        grown_size-end old inode size offset amount written begun.sized k.sized small reachable
          storable part in
      let at = resize-Sized size grown inode (omega (arith, ends)) k in
      Ensures-if (EndsAt offset) (written == 0) (pure (inode, 0)) changed s (λ e n. absurd (n refl))
        (λ e. Ensures-then (EndsAt offset) (timestamp drive) next s (λ accessed s1.
          Ensures-then (EndsAt offset) (timestamp drive) (last accessed) s1 (λ modified s2 n.
            (put-Sized grown Inode.last_modification_time modified _ (omega arith) (omega arith) (
              put-Sized grown Inode.last_access_time accessed _ (omega arith) (omega arith)
                at)).sized
            ∙ ends)))
    where
      last : ℕ → ℕ → Fs W (Memory × ℕ)
      last accessed modified = pure (
        put Inode.last_modification_time modified (
            put Inode.last_access_time accessed (
              put Inode.size (grown_size inode (size_change old offset amount) amount written)
                inode)),
        written,
      )

      next : ℕ → Fs W (Memory × ℕ)
      next accessed = timestamp drive >>= last accessed

      changed : Fs W (Memory × ℕ)
      changed = timestamp drive >>= next

-- For an inode of 128 bytes whose size is below 2 ^ 32, an offset and a number of bytes below 2 ^ 64,
-- and any drive: if `write_file` ends without a fault and has written any bytes, the size of the inode
-- is then the offset plus the number of bytes written, of 32 bits, also where the file was larger
-- before.
pub write_file-EndsAt :
    {W : Type 0} (drive : Drive W) (inode : Memory) (offset : ℕ) (buf : Memory) (s : Ext2 W)
    → length inode ≡ Inode.size_of
    → get Inode.size inode < 2 ^ 32
    → offset < u64_mod
    → length buf < u64_mod
    → Ensures (EndsAt offset) (write_file drive inode offset buf s)
unfolding write_file state
write_file-EndsAt {W} drive inode offset buf s whole small reachable storable =
    let size = get Inode.size inode in
    let begun : Sized size inode = record { whole = whole; sized = refl } in
    let kept =
      get_block_for_offset-Kept drive (Sized size) (add_sectors-Sized size) (λ i block i' fit.
        put-Sized size (Inode.block_pointer i) block i' (omega arith) (omega arith)) in
    Ensures-if (EndsAt offset) (leb limit (add64 offset (length buf))) (pure (inode, 0))
      (write_loop drive (suc (length buf)) s.block_size inode offset buf 0
        >>= end_loop drive inode offset (length buf))
      s (λ e n. absurd (n refl))
      (λ e.
        Ensures-bind (EndsAt offset) (IsDone (Sized size) buf)
          (write_loop drive (suc (length buf)) s.block_size inode offset buf 0)
          (end_loop drive inode offset (length buf)) s
          (write_loop-IsDone drive (Sized size) (λ i o t h. kept i o true t h) (suc (length buf))
            s.block_size inode offset buf 0 s (some_block e) begun (omega arith) (omega arith))
          (λ r s' h. after r s' h))
  where
    limit : ℕ
    limit =
        (12 + indirect_count s.block_size + doubly_count s.block_size + triply_count s.block_size)
        * s.block_size

    some_block : leb limit (add64 offset (length buf)) ≡ false → 0 < s.block_size
    some_block e = elim (Bool-cases (s.block_size == 0)) [
      | inl none_here ↦
          let empty : s.block_size ≡ 0 = (==_iff s.block_size 0).0 none_here in
          let zero_limit : limit ≡ 0 = rw empty (omega arith) in absurd (ground (arith, zero_limit))
      | inr wide ↦ ground arith
    ]

    after :
        (r : Option (Memory × ℕ)) (s' : Ext2 W)
        → IsDone (Sized (get Inode.size inode)) buf r
        → Ensures (EndsAt offset) (end_loop drive inode offset (length buf) r s')
    after none s' h = elim h [ ]
    after (some (i, n)) s' h =
        unfold end_loop in
        (end_writing-EndsAt drive (get Inode.size inode) offset (length buf) inode
          (record { whole = whole; sized = refl }) small reachable storable i n s' h.0 h.1)
