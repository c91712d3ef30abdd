-- ===== src/Fs/Ext2/Blocks/Kept.antt =====
-- What `get_block_for_offset` of kernel/fs/ext2/ext2.cpp keeps of the inode.
use influx.Base.{ℕ, ◌*◌, ◌%◌, ◌<◌, Bool, true, false, Option, ltb, if◌then◌else◌, arith}
use influx.Fs.Memory.{Memory, put}
use influx.Fs.Ext2.Inode
use influx.Fs.Ext2.Device.{Drive, Ext2, Fs, pure, ◌>>=◌, state, divide, u32_mod}
use influx.Fs.Ext2.Outcome.{Ensures, Ensures-bind, Ensures-then, Ensures-if}
use influx.Fs.Ext2.Blocks.{
  add_sectors, Start, Walk, direct, top_block, entry, start_singly, start_doubly, start_triply,
  finish_singly, finish, answer, walk, start_block, finish_start, find_block, is_beyond,
  get_block_for_offset,
}

-- What stays when a block is put into a pointer of the inode and counted, or only counted.
module _ {W : Type 0} (drive : Drive W) (P : Memory → Type 0)
    (counted : (block_size : ℕ) (inode : Memory) → P inode → P (add_sectors block_size inode))
    (pointed : (i block : ℕ) (inode : Memory)
      → i < 15
      → P inode
      → P (put (Inode.block_pointer i) block inode)) where
  direct-Kept :
      (inode : Memory) (allocate : Bool) (i : ℕ) (s : Ext2 W)
      → i < 15
      → P inode
      → Ensures (λ (r : Memory × ℕ). P r.0) (direct drive inode allocate i s)
  unfolding direct state
  direct-Kept inode allocate i s small h = grind (arith, counted, pointed)

  top_block-Kept :
      (inode : Memory) (allocate : Bool) (i : ℕ) (s : Ext2 W)
      → i < 15
      → P inode
      → Ensures (λ (r : Memory × Bool × ℕ). P r.0) (top_block drive inode allocate i s)
  unfolding top_block state
  top_block-Kept inode allocate i s small h = grind (arith, counted, pointed)

  entry-Kept :
      (inode : Memory) (allocate clear : Bool) (parent offset : ℕ) (s : Ext2 W)
      → P inode
      → Ensures
          (λ (r : Memory × Option ℕ). P r.0)
          (entry drive inode allocate clear parent offset s)
  unfolding entry state
  entry-Kept inode allocate clear parent offset s h = grind (arith, counted)

  start_singly-Kept :
      (inode : Memory) (allocate : Bool) (block_index : ℕ) (s : Ext2 W)
      → P inode
      → Ensures (λ (r : Memory × Start). P r.0) (start_singly drive inode allocate block_index s)
  unfolding start_singly
  start_singly-Kept inode allocate block_index s h =
      ground (arith, top_block-Kept inode allocate 12 s (omega arith) h)

  start_doubly-Kept :
      (inode : Memory) (allocate : Bool) (block_index : ℕ) (s : Ext2 W)
      → P inode
      → Ensures (λ (r : Memory × Start). P r.0) (start_doubly drive inode allocate block_index s)
  unfolding start_doubly state
  start_doubly-Kept inode allocate block_index s h =
      ground (arith, top_block-Kept inode allocate 13 s (omega arith) h)

  start_triply-Kept :
      (inode : Memory) (allocate : Bool) (block_index : ℕ) (s : Ext2 W)
      → P inode
      → Ensures (λ (r : Memory × Start). P r.0) (start_triply drive inode allocate block_index s)
  unfolding start_triply state
  start_triply-Kept inode allocate block_index s h =
      grind (arith, top_block-Kept inode allocate 14 s (omega arith) h, entry-Kept)

  finish_singly-Kept :
      (inode : Memory) (allocate : Bool) (block index : ℕ) (s : Ext2 W)
      → P inode
      → Ensures (λ (r : Memory × ℕ). P r.0) (finish_singly drive inode allocate block index s)
  unfolding finish_singly
  finish_singly-Kept inode allocate block index s h =
      ground (arith, entry-Kept inode allocate false block (index * 4) s h)

  finish-Kept :
      (inode : Memory) (allocate : Bool) (w : Walk) (s : Ext2 W)
      → P inode
      → Ensures (λ (r : Memory × ℕ). P r.0) (finish drive inode allocate w s)
  unfolding finish
  finish-Kept inode allocate w s h = grind (
    arith,
    entry-Kept inode allocate true w.doubly_block (w.doubly_index * 4) s h,
    finish_singly-Kept,
  )

  start_block-Kept :
      (inode : Memory) (allocate : Bool) (block_index block_size : ℕ) (s : Ext2 W)
      → P inode
      → Ensures
          (λ (r : Memory × Start). P r.0)
          (start_block drive inode allocate block_index block_size s)
  unfolding start_block
  start_block-Kept inode allocate block_index block_size s h = ground (
    arith,
    start_singly-Kept inode allocate block_index s h,
    start_doubly-Kept inode allocate block_index s h,
    start_triply-Kept inode allocate block_index s h,
  )

  finish_start-Kept :
      (allocate : Bool) (r : Memory × Start) (s : Ext2 W)
      → P r.0
      → Ensures (λ (r : Memory × ℕ). P r.0) (finish_start drive allocate r s)
  unfolding finish_start
  finish_start-Kept allocate (inode, answer block) s h = h
  finish_start-Kept allocate (inode, walk w) s h = finish-Kept inode allocate w s h

  find_block-Kept :
      (inode : Memory) (allocate : Bool) (block_index block_size : ℕ) (s : Ext2 W)
      → P inode
      → Ensures
          (λ (r : Memory × ℕ). P r.0)
          (find_block drive inode allocate block_index block_size s)
  unfolding find_block
  find_block-Kept inode allocate block_index block_size s h =
      Ensures-if (λ (r : Memory × ℕ). P r.0) (ltb block_index 12)
        (direct drive inode allocate block_index)
        (start_block drive inode allocate block_index block_size >>= finish_start drive allocate) s
        (λ e. direct-Kept inode allocate block_index s (ground arith) h)
        (λ e.
          Ensures-bind (λ (r : Memory × ℕ). P r.0) (λ (r : Memory × Start). P r.0)
            (start_block drive inode allocate block_index block_size) (finish_start drive allocate)
            s (start_block-Kept inode allocate block_index block_size s h)
            (λ r s' k. finish_start-Kept allocate r s' k))

  pub get_block_for_offset-Kept :
      (inode : Memory) (offset : ℕ) (allocate : Bool) (s : Ext2 W)
      → P inode
      → Ensures (λ (r : Memory × ℕ). P r.0) (get_block_for_offset drive inode offset allocate s)
  unfolding get_block_for_offset state
  get_block_for_offset-Kept inode offset allocate s h =
      Ensures-then (λ (r : Memory × ℕ). P r.0) (divide offset s.block_size) next s
        (λ q s'.
          Ensures-if (λ (r : Memory × ℕ). P r.0) (is_beyond s.block_size inode offset allocate)
            (pure (inode, 0)) (find_block drive inode allocate (q.0 % u32_mod) s.block_size) s'
            (λ e. h) (λ e. find_block-Kept inode allocate (q.0 % u32_mod) s.block_size s' h))
    where
      next : ℕ × ℕ → Fs W (Memory × ℕ)
      next q =
          if is_beyond s.block_size inode offset allocate
          then pure (inode, 0)
          else find_block drive inode allocate (q.0 % u32_mod) s.block_size
