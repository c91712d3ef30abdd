-- ===== src/Fs/Ext2/Release.antt =====
-- Release of blocks and inodes in kernel/fs/ext2/ext2.cpp.
use influx.Base.{
  ℕ, zero, suc, ◌+◌, ◌*◌, ◌/◌, Bool, true, false, not, none, some, length, ◌==◌, if◌then◌else◌,
}
use influx.Fs.Memory.{Memory, field, get, load, store}
use influx.Fs.Ext2.Superblock
use influx.Fs.Ext2.BlockGroup
use influx.Fs.Ext2.Inode
use influx.Fs.Ext2.ByteBitmap.{read_bit, write_bit}
use influx.Fs.Ext2.Device.{
  Drive, Fs, pure, ◌>>=◌, ◌>>◌, state, lift, divide, set_sb, block_group, set_block_group,
  read_block, write_block, save_superblock, save_block_group, get_inode, add32, sub32, new_buffer,
  add16,
}
use influx.Fs.Ext2.Allocation.{Kind, blocks, inodes}

-- How far a release in the block group comes: an error, a bit that is free already, or the release.
pub data Released : Type 0 where
  failed : Released
  free_already : Released
  released : Released

module _ {W : Type 0} (drive : Drive W) where
  module _ (kind : Kind) where
    unfoldable pub clear_bit : ℕ → Memory → ℕ → Fs W Released
    unfolding state lift block_group set_block_group write_bit write_block save_block_group get
    clear_bit i bitmap_buf index = do
      s ← state
      group ← block_group i
      bitmap ← lift (write_bit (get kind.per_group s.sb) bitmap_buf index false)
      written ← write_block drive (get kind.bitmap_block group) bitmap 0
      if not written then pure failed else do
        set_block_group i kind.free_in_group (add16 (get kind.free_in_group group) 1)
        saved ← save_block_group drive i
        pure (if saved then released else failed)

    unfoldable pub release_in_group : ℕ → ℕ → Fs W Released
    unfolding state lift block_group read_block read_bit clear_bit get
    release_in_group i index = do
      s ← state
      group ← block_group i
      bitmap_buf ← read_block drive (get kind.bitmap_block group) 0 none
      if length bitmap_buf == 0 then pure failed else do
        taken ← lift (read_bit (get kind.per_group s.sb) bitmap_buf index)
        if taken then clear_bit i bitmap_buf index else pure free_already

    unfoldable pub return_to_total : Fs W Bool
    unfolding state set_sb save_superblock get
    return_to_total = do
      s ← state
      set_sb kind.free_total (add32 (get kind.free_total s.sb) 1)
      save_superblock drive

  unfoldable pub free_block : ℕ → Fs W Bool
  unfolding state divide release_in_group return_to_total get
  free_block block = do
    s ← state
    place ← divide block (get Superblock.blocks_per_group s.sb)
    done ← release_in_group blocks place.0 place.1
    elim done [ failed ↦ pure false | free_already ↦ pure true | released ↦ return_to_total blocks ]

  -- The loop over the `count` numbers in an indirect block from entry `i` on.
  unfoldable pub free_entries : (ℕ → Fs W Bool) → Memory → ℕ → ℕ → Fs W Bool
  unfolding free_block get
  free_entries below buf zero i = pure true
  free_entries below buf (suc count) i =
      let block = get (field 4 (4 * i)) buf in
      let rest = free_entries below buf count (i + 1) in
      if block == 0
      then rest
      else below block >>= λ emptied.
          if not emptied
          then pure false
          else free_block block >>= λ freed. if freed then rest else pure false

  -- `free_singly_indirect_blocks` and the two that call it: what is done below each entry differs.
  unfoldable pub free_indirect_blocks : (ℕ → Fs W Bool) → ℕ → Fs W Bool
  unfolding state read_block free_entries
  free_indirect_blocks below block = do
    buf ← read_block drive block 0 none
    s ← state
    if length buf == 0 then pure false else free_entries below buf (s.block_size / 4) 0

  unfoldable pub free_singly_indirect_blocks : ℕ → Fs W Bool
  unfolding free_indirect_blocks
  free_singly_indirect_blocks = free_indirect_blocks (λ block. pure true)

  unfoldable pub free_doubly_indirect_blocks : ℕ → Fs W Bool
  unfolding free_indirect_blocks free_singly_indirect_blocks
  free_doubly_indirect_blocks = free_indirect_blocks free_singly_indirect_blocks

  unfoldable pub free_triply_indirect_blocks : ℕ → Fs W Bool
  unfolding free_indirect_blocks free_doubly_indirect_blocks
  free_triply_indirect_blocks = free_indirect_blocks free_doubly_indirect_blocks

  -- The pointer of the inode to an indirect block.
  unfoldable pub free_pointer : (ℕ → Fs W Bool) → ℕ → Fs W Bool
  unfolding free_block
  free_pointer below block =
      if block == 0
      then pure true
      else below block >>= λ emptied. if emptied then free_block block else pure false

  unfoldable pub free_inode_blocks : Memory → Fs W Bool
  unfolding free_entries free_pointer get free_singly_indirect_blocks free_doubly_indirect_blocks
      free_triply_indirect_blocks load
  free_inode_blocks inode = do
    direct ← free_entries (λ block. pure true) (load 40 48 inode) Inode.direct_blocks 0
    if not direct then pure false else do
      singly ←
          free_pointer free_singly_indirect_blocks
            (get (Inode.block_pointer Inode.indirect_block) inode)
      if not singly then pure false else do
        doubly ←
            free_pointer free_doubly_indirect_blocks
              (get (Inode.block_pointer Inode.doubly_indirect_block) inode)
        if doubly
            then free_pointer free_triply_indirect_blocks
                (get (Inode.block_pointer Inode.triply_indirect_block) inode)
            else pure false

  -- The inode in its table.
  unfoldable pub clear_inode : ℕ → ℕ → ℕ → Fs W Bool
  unfolding state block_group read_block write_block get store
  clear_inode i block_index inode_block_index = do
    s ← state
    group ← block_group i
    let block = add32 (get BlockGroup.inode_table_start_block group) block_index
    inode_table_buf ← read_block drive block 0 none
    let start = get Superblock.inode_size s.sb * inode_block_index
    if length inode_table_buf == 0
        then pure false
        else write_block drive block (store start (new_buffer Inode.size_of) inode_table_buf) 0

  unfoldable pub forget_inode : ℕ → ℕ → ℕ → Memory → Fs W Bool
  unfolding clear_inode return_to_total free_inode_blocks
  forget_inode i block_index inode_block_index inode_obj = do
    cleared ← clear_inode i block_index inode_block_index
    if not cleared then pure false else do
      counted ← return_to_total inodes
      if counted then free_inode_blocks inode_obj >> pure true else pure false

  unfoldable pub free_inode : ℕ → Fs W Bool
  unfolding state divide get_inode release_in_group forget_inode get
  free_inode inode = do
    s ← state
    place ← divide (sub32 inode 1) (get Superblock.inodes_per_group s.sb)
    per_block ← divide s.block_size (get Superblock.inode_size s.sb)
    block_index ← divide place.1 per_block.0
    inode_block_index ← divide (sub32 inode 1) per_block.0
    found ← get_inode drive inode
    elim found [
      | none ↦ pure false
      | some inode_obj ↦ release_in_group inodes place.0 place.1 >>= λ done. elim done [
        | failed ↦ pure false
        | free_already ↦ pure true
        | released ↦ forget_inode place.0 block_index.0 inode_block_index.1 inode_obj
      ]
    ]
