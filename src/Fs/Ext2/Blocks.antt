-- ===== src/Fs/Ext2/Blocks.antt =====
-- The block of a file at an offset, `get_block_for_offset` of kernel/fs/ext2/ext2.cpp.
pub mod Kept
use influx.Base.{
  ℕ, ◌+◌, ◌-◌, ◌*◌, ◌/◌, ◌%◌, Bool, true, false, not, ◌&&◌, ◌||◌, Option, none, some, length, ltb,
  leb, ◌==◌, if◌then◌else◌,
}
use influx.Fs.Memory.{Memory, get, put, number, bytes_of}
use influx.Fs.Ext2.Inode
use influx.Fs.Ext2.Device.{
  Drive, Fs, pure, ◌>>=◌, ◌>>◌, state, divide, read_block, write_block, clear_block, add32, u32_mod,
}
use influx.Fs.Ext2.Allocation.{alloc_block}

-- `EXT2_IND_N_BLOCKS`, `EXT2_DIND_N_BLOCKS` and `EXT2_TIND_N_BLOCKS` of a block size.
abbrev pub indirect_count : ℕ → ℕ
indirect_count block_size = block_size / 4

abbrev pub doubly_count : ℕ → ℕ
doubly_count block_size = indirect_count block_size * indirect_count block_size

abbrev pub triply_count : ℕ → ℕ
triply_count block_size = indirect_count block_size * doubly_count block_size

abbrev pub pointer : ℕ → Memory → ℕ
pointer i inode = get (Inode.block_pointer i) inode

unfoldable pub add_sectors : ℕ → Memory → Memory
unfolding get put
add_sectors block_size inode =
    put Inode.disk_sectors_count (add32 (get Inode.disk_sectors_count inode) (block_size / 512))
      inode

-- Where the walk through indirect blocks begins: the blocks, none being 0, and the indices in them.
pub record Walk : Type 0 where
  pub doubly_block : ℕ
  pub doubly_index : ℕ
  pub singly_block : ℕ
  pub singly_index : ℕ

-- The start of the walk to a block, or the block that is the answer at once.
pub data Start : Type 0 where
  answer : ℕ → Start
  walk : Walk → Start

-- What `get_block_for_offset` refuses.
unfoldable pub is_beyond : ℕ → Memory → ℕ → Bool → Bool
unfolding get
is_beyond block_size inode offset allocate =
    if allocate
    then leb
        ((triply_count block_size
            + doubly_count block_size
            + indirect_count block_size
            + Inode.direct_blocks)
          * block_size)
        offset
    else leb (get Inode.size inode) offset

module _ {W : Type 0} (drive : Drive W) where
  unfoldable pub direct : Memory → Bool → ℕ → Fs W (Memory × ℕ)
  unfolding state
  direct inode allocate i = do
    s ← state
    if not (allocate && pointer i inode == 0) then pure (inode, pointer i inode) else do
      block ← alloc_block drive
      let inode' = add_sectors s.block_size (put (Inode.block_pointer i) block inode)
      pure (inode', pointer i inode')

  -- A pointer of the inode to an indirect block; the flag says that the function returns it.
  unfoldable pub top_block : Memory → Bool → ℕ → Fs W (Memory × Bool × ℕ)
  unfolding state
  top_block inode allocate i = do
    s ← state
    if not (allocate && pointer i inode == 0) then pure (inode, false, pointer i inode) else do
      block ← alloc_block drive
      let inode' = add_sectors s.block_size (put (Inode.block_pointer i) block inode)
      if pointer i inode' == 0 then pure (inode', true, pointer i inode') else do
        cleared ← clear_block drive (pointer i inode')
        pure (inode', not cleared, pointer i inode')

  -- The number at an offset of an indirect block, where a new block is put if it is 0; none is a failure.
  unfoldable pub entry : Memory → Bool → Bool → ℕ → ℕ → Fs W (Memory × Option ℕ)
  unfolding state number
  entry inode allocate clear parent offset = do
    s ← state
    buf ← read_block drive parent offset (some 4)
    if not (length buf == 4)
        then pure (inode, none)
        else if not (allocate && number buf == 0)
        then pure (inode, some (number buf))
        else do
          block ← alloc_block drive
          let inode' = add_sectors s.block_size inode
          if block == 0 then pure (inode', none) else do
            cleared ← if clear then clear_block drive block else pure true
            if not cleared then pure (inode', none) else do
              written ← write_block drive parent (bytes_of 4 block) offset
              pure (inode', if written then some block else none)

  unfoldable pub start_singly : Memory → Bool → ℕ → Fs W (Memory × Start)
  unfolding top_block
  start_singly inode allocate block_index = do
    top ← top_block inode allocate Inode.indirect_block
    pure (
      top.0,
      if top.1
          then answer top.2
          else walk (record {
            doubly_block = 0;
            doubly_index = 0;
            singly_block = top.2;
            singly_index = block_index - Inode.direct_blocks;
          }),
    )

  unfoldable pub start_doubly : Memory → Bool → ℕ → Fs W (Memory × Start)
  unfolding state top_block
  start_doubly inode allocate block_index = do
    s ← state
    top ← top_block inode allocate Inode.doubly_indirect_block
    let behind = block_index - (Inode.direct_blocks + indirect_count s.block_size)
    index ← divide behind (indirect_count s.block_size)
    pure (
      top.0,
      if top.1
          then answer top.2
          else walk (record {
            doubly_block = top.2;
            doubly_index = index.0;
            singly_block = 0;
            singly_index = index.1;
          }),
    )

  -- The offset in the triply indirect block is the index of the entry, and not that of its bytes.
  unfoldable pub start_triply : Memory → Bool → ℕ → Fs W (Memory × Start)
  unfolding state top_block entry
  start_triply inode allocate block_index = do
    s ← state
    top ← top_block inode allocate Inode.triply_indirect_block
    let behind =
        block_index
        - (Inode.direct_blocks + indirect_count s.block_size + doubly_count s.block_size)
    index ← divide behind (doubly_count s.block_size)
    low ← divide behind (indirect_count s.block_size)
    if top.1 then pure (top.0, answer top.2) else do
      found ← entry top.0 allocate true top.2 index.0
      pure (
        found.0,
        elim found.1 [
          | none ↦ answer 0
          | some block ↦ walk (record {
            doubly_block = block;
            doubly_index = index.0;
            singly_block = 0;
            singly_index = low.1;
          })
        ],
      )

  unfoldable pub finish_singly : Memory → Bool → ℕ → ℕ → Fs W (Memory × ℕ)
  unfolding entry
  finish_singly inode allocate block index = if block == 0 then pure (inode, 0) else do
    found ← entry inode allocate false block (index * 4)
    pure (found.0, elim found.1 [ none ↦ 0 | some b ↦ b ])

  unfoldable pub finish : Memory → Bool → Walk → Fs W (Memory × ℕ)
  unfolding entry finish_singly
  finish inode allocate w =
      if w.doubly_block == 0 then finish_singly inode allocate w.singly_block w.singly_index else do
        found ← entry inode allocate true w.doubly_block (w.doubly_index * 4)
        elim found.1 [
          | none ↦ pure (found.0, 0)
          | some block ↦ finish_singly found.0 allocate block w.singly_index
        ]

  unfoldable pub start_block : Memory → Bool → ℕ → ℕ → Fs W (Memory × Start)
  unfolding start_singly start_doubly start_triply
  start_block inode allocate block_index block_size =
      if ltb block_index (indirect_count block_size + Inode.direct_blocks)
      then start_singly inode allocate block_index
      else if ltb block_index
          (doubly_count block_size + indirect_count block_size + Inode.direct_blocks)
      then start_doubly inode allocate block_index
      else start_triply inode allocate block_index

  unfoldable pub finish_start : Bool → Memory × Start → Fs W (Memory × ℕ)
  unfolding finish
  finish_start allocate (inode, answer block) = pure (inode, block)
  finish_start allocate (inode, walk w) = finish inode allocate w

  unfoldable pub find_block : Memory → Bool → ℕ → ℕ → Fs W (Memory × ℕ)
  unfolding direct start_block finish_start
  find_block inode allocate block_index block_size =
      if ltb block_index Inode.direct_blocks
      then direct inode allocate block_index
      else start_block inode allocate block_index block_size >>= finish_start allocate

  -- The inode comes back as the function leaves it.
  unfoldable pub get_block_for_offset : Memory → ℕ → Bool → Fs W (Memory × ℕ)
  unfolding state is_beyond find_block
  get_block_for_offset inode offset allocate = do
    s ← state
    quotient ← divide offset s.block_size
    if is_beyond s.block_size inode offset allocate
        then pure (inode, 0)
        else find_block inode allocate (quotient.0 % u32_mod) s.block_size
