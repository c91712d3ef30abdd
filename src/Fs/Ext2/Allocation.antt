-- ===== src/Fs/Ext2/Allocation.antt =====
-- Allocation of blocks and inodes in kernel/fs/ext2/ext2.cpp. The two functions differ in the counts and the
-- bitmap they work on.
use influx.Base.{
  ℕ, ◌+◌, ◌-◌, Bool, true, false, not, List, [], ◌∷◌, Option, none, some, length, ltb, ◌==◌,
  if◌then◌else◌,
}
use influx.Fs.Memory.{Memory, Field, get}
use influx.Fs.Ext2.Superblock
use influx.Fs.Ext2.BlockGroup
use influx.Fs.Ext2.ByteBitmap.{write_bit, search_free}
use influx.Fs.Ext2.Device.{
  Drive, Fs, pure, ◌>>=◌, ◌>>◌, state, lift, set_sb, block_group, set_block_group, read_block,
  write_block, save_superblock, save_block_group, add32, mul32, sub16,
}

-- What `alloc_block` and `alloc_inode` work on: the count of the file system, that of a block group, the
-- block of the bitmap, the number of its bits, and the first number.
pub record Kind : Type 0 where
  pub free_total : Field
  pub free_in_group : Field
  pub bitmap_block : Field
  pub per_group : Field
  pub first : ℕ

abbrev pub blocks : Kind
blocks = record {
  free_total = Superblock.free_blocks_count;
  free_in_group = BlockGroup.free_blocks_count;
  bitmap_block = BlockGroup.block_bitmap_block;
  per_group = Superblock.blocks_per_group;
  first = 0;
}

abbrev pub inodes : Kind
inodes = record {
  free_total = Superblock.free_inodes_count;
  free_in_group = BlockGroup.free_inodes_count;
  bitmap_block = BlockGroup.inode_bitmap_block;
  per_group = Superblock.inodes_per_group;
  first = 1;
}

-- The first block group from `i` on with a free one.
unfoldable pub find_group : Kind → ℕ → List Memory → Option ℕ
unfolding get
find_group kind i [] = none
find_group kind i (group ∷ groups) =
    let rest = find_group kind (i + 1) groups in
    if ltb 0 (get kind.free_in_group group) then some i else rest

module _ {W : Type 0} (drive : Drive W) (kind : Kind) where
  -- The count of the superblock, first of all.
  unfoldable pub take_from_total : Fs W Bool
  unfolding state set_sb save_superblock get
  take_from_total = do
    s ← state
    let left = get kind.free_total s.sb
    if ltb 0 left then set_sb kind.free_total (left - 1) >> save_superblock drive else pure false

  -- The bit that the search found.
  unfoldable pub take_bit : ℕ → Memory → ℕ → Fs W ℕ
  unfolding state lift block_group set_block_group write_bit write_block save_block_group get
  take_bit i bitmap_buf index = do
    s ← state
    group ← block_group i
    bitmap ← lift (write_bit (get kind.per_group s.sb) bitmap_buf index true)
    written ← write_block drive (get kind.bitmap_block group) bitmap 0
    if not written then pure 0 else do
      set_block_group i kind.free_in_group (sub16 (get kind.free_in_group group) 1)
      saved ← save_block_group drive i
      if saved
          then pure (add32 (add32 (mul32 i (get kind.per_group s.sb)) index) kind.first)
          else pure 0

  unfoldable pub take_in_group : ℕ → Fs W ℕ
  unfolding state lift block_group set_block_group read_block search_free save_block_group take_bit
      get
  take_in_group i = do
    s ← state
    group ← block_group i
    bitmap_buf ← read_block drive (get kind.bitmap_block group) 0 none
    if length bitmap_buf == 0 then pure 0 else do
      found ← lift (search_free (get kind.per_group s.sb) bitmap_buf (get kind.per_group s.sb) 0)
      elim found [
        | some index ↦ take_bit i bitmap_buf index
        | none ↦ set_block_group i kind.free_in_group 0 >> save_block_group drive i >> pure 0
      ]

  -- 0 is no block and no inode.
  unfoldable pub allocate : Fs W ℕ
  unfolding state take_from_total find_group take_in_group
  allocate = do
    taken ← take_from_total
    s ← state
    if not taken
        then pure 0
        else elim (find_group kind 0 s.block_groups) [ none ↦ pure 0 | some i ↦ take_in_group i ]

module _ {W : Type 0} (drive : Drive W) where
  unfoldable pub alloc_block : Fs W ℕ
  unfolding allocate
  alloc_block = allocate drive blocks

  unfoldable pub alloc_inode : Fs W ℕ
  unfolding allocate
  alloc_inode = allocate drive inodes
