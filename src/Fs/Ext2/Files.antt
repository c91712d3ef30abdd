-- ===== src/Fs/Ext2/Files.antt =====
-- The contents of files, `read_file` and `write_file` of kernel/fs/ext2/ext2.cpp.
pub mod Size
pub mod Ends
use influx.Base.{
  ℕ, zero, suc, ◌+◌, ◌-◌, ◌*◌, ◌/◌, ◌%◌, min, Bool, true, false, not, ◌&&◌, ◌||◌, ◌++◌, Option,
  none, some, length, take, drop, replicate, ltb, leb, ◌==◌, if◌then◌else◌, add64, sub64,
}
use influx.Base.Run.{out_of_fuel, division_by_zero}
use influx.Fs.Memory.{Memory, get, put, store, load}
use influx.Fs.Ext2.Inode
use influx.Fs.Ext2.Device.{
  Drive, Fs, pure, ◌>>=◌, ◌>>◌, state, stop, assert, drive_read, drive_write, is_interrupted,
  timestamp, new_buffer, mul32, add32, u32_mod,
}
use influx.Fs.Ext2.Blocks.{get_block_for_offset, indirect_count, doubly_count, triply_count}

-- The variables of `read_file` that change.
pub record Reading : Type 0 where
  pub buf : Memory
  pub read : ℕ
  pub failed : Bool

-- `resize` of a buffer, which fills with zeros.
unfoldable pub resize : ℕ → Memory → Memory
resize n buf = take n buf ++ replicate (n - length buf) 0

-- `size_change`, and what `size` grows by when this much is written. The differences are of `uint64_t`
-- and are cut to 32 bits.
unfoldable pub size_change : Memory → ℕ → ℕ → ℕ
unfolding get
size_change inode offset amount = sub64 amount (sub64 (get Inode.size inode) offset) % u32_mod

unfoldable pub grown_size : Memory → ℕ → ℕ → ℕ → ℕ
unfolding get
grown_size inode change amount written =
    add32 (get Inode.size inode) (sub64 change (amount - written) % u32_mod)

module _ {W : Type 0} (drive : Drive W) where
  unfoldable pub block_at : Memory → ℕ → Fs W ℕ
  unfolding get_block_for_offset
  block_at inode offset = get_block_for_offset drive inode offset false >>= λ found. pure found.1

  -- One read of `read_file` into the buffer; a block 0 is skipped.
  unfoldable pub read_part : ℕ → ℕ → ℕ → ℕ → Reading → Fs W Reading
  unfolding drive_read store
  read_part block address amount position r = if block == 0 then pure r else do
    bytes ← drive_read drive address amount
    pure (record {
      buf = store position bytes r.buf;
      read = add64 r.read (length bytes);
      failed = not (length bytes == amount);
    })

  -- The loop over the whole blocks, which does not look at `failed`.
  unfoldable pub read_loop : ℕ → ℕ → Memory → ℕ → ℕ → ℕ → ℕ → Reading → Fs W Reading
  unfolding stop is_interrupted read_part block_at
  read_loop zero block_size inode offset last_block current_offset current_block r =
      stop out_of_fuel
  read_loop (suc fuel) block_size inode offset last_block current_offset current_block r =
      if current_block == last_block then pure r else do
        interrupted ← is_interrupted drive
        if interrupted then pure r else do
          r' ←
              read_part current_block (current_block * block_size) block_size
                (current_offset - offset) r
          if r'.failed
              then read_loop fuel block_size inode offset last_block current_offset current_block r'
              else do
                next_block ← block_at inode (current_offset + block_size)
                read_loop fuel block_size inode offset last_block (current_offset + block_size)
                    next_block r'

  unfoldable pub read_last : ℕ → Memory → ℕ → ℕ → ℕ → ℕ → Reading → Fs W Reading
  unfolding is_interrupted read_part
  read_last block_size inode first_block last_block rest amount r =
      if r.failed || (last_block == first_block)
      then pure r
      else is_interrupted drive >>= λ interrupted.
          if interrupted
          then pure r
          else read_part last_block (mul32 last_block block_size) rest (amount - rest) r

  -- The end of `read_file`, with the inode it leaves.
  unfoldable pub end_reading : Memory → ℕ → Reading → Fs W (Memory × Memory)
  unfolding timestamp resize put
  end_reading inode amount r = do
    let buf = if r.read == amount then r.buf else resize r.read r.buf
    if r.read == 0
        then pure (inode, buf)
        else timestamp drive >>= λ now. pure (put Inode.last_access_time now inode, buf)

  unfoldable pub read_file : ℕ → Memory → ℕ → ℕ → Fs W (Memory × Memory)
  unfolding state stop assert block_at read_part read_loop read_last end_reading get
  read_file fuel inode offset amount = do
    assert (leb (add64 offset amount) (get Inode.size inode))
    s ← state
    let block_size = s.block_size
    if block_size == 0 then stop division_by_zero else do
      let skipped = offset % block_size
      let current_offset = offset + (block_size - skipped)
      let rest = (amount + offset) % block_size
      let first_amount = if ltb block_size (amount + skipped) then block_size - skipped else amount
      current_block ← block_at inode current_offset
      first_block ← block_at inode offset
      last_block ← block_at inode (offset + amount - rest)
      let blank : Reading = record { buf = new_buffer amount; read = 0; failed = false }
      r ← read_part first_block (mul32 first_block block_size + skipped) first_amount 0 blank
      r' ←
          (if r.failed || (first_amount == amount)
            then pure r
            else read_loop fuel block_size inode offset last_block current_offset current_block r)
      r'' ← read_last block_size inode first_block last_block rest amount r'
      end_reading inode amount r''

  -- The write of a round into its block, which is 0 where there is none: the inode, and the amount
  -- written, or none where the loop is left.
  unfoldable pub write_part : ℕ → ℕ → Memory → ℕ → Memory × ℕ → Fs W (Memory × Option ℕ)
  unfolding drive_write load
  write_part block_size offset buf current_offset (inode, block) =
      let skipped = add64 offset current_offset % block_size in
      let amount = min (block_size - skipped) (length buf - current_offset) in
      if block == 0
      then pure (inode, none)
      else drive_write drive (mul32 block block_size + skipped) (load current_offset amount buf)
        >>= λ written. pure (inode, if written == amount then some amount else none)

  -- A round of the loop of `write_file`.
  unfoldable pub write_round : ℕ → Memory → ℕ → Memory → ℕ → Fs W (Memory × Option ℕ)
  unfolding is_interrupted get_block_for_offset write_part
  write_round block_size inode offset buf current_offset = is_interrupted drive >>= λ interrupted.
      if interrupted
      then pure (inode, none)
      else get_block_for_offset drive inode (add64 offset current_offset) true
        >>= write_part block_size offset buf current_offset

  -- The loop, which gives none when the fuel runs out: the inode, and what is written.
  unfoldable pub write_loop : ℕ → ℕ → Memory → ℕ → Memory → ℕ → Fs W (Option (Memory × ℕ))
  unfolding write_round
  write_loop zero block_size inode offset buf current_offset = pure none
  write_loop (suc fuel) block_size inode offset buf current_offset =
      if leb (length buf) current_offset then pure (some (inode, current_offset)) else do
        round ← write_round block_size inode offset buf current_offset
        elim round.1 [
          | none ↦ pure (some (round.0, current_offset))
          | some n ↦ write_loop fuel block_size round.0 offset buf (current_offset + n)
        ]

  unfoldable pub end_writing : Memory → ℕ → ℕ → ℕ → Fs W (Memory × ℕ)
  unfolding timestamp grown_size put
  end_writing inode change amount written = if written == 0 then pure (inode, 0) else do
    accessed ← timestamp drive
    modified ← timestamp drive
    let sized = put Inode.size (grown_size inode change amount written) inode
    pure (
      put Inode.last_modification_time modified (put Inode.last_access_time accessed sized),
      written,
    )

  unfoldable pub end_loop : Memory → ℕ → ℕ → Option (Memory × ℕ) → Fs W (Memory × ℕ)
  unfolding stop size_change end_writing
  end_loop inode offset amount none = stop out_of_fuel
  end_loop inode offset amount (some (inode', written)) =
      end_writing inode' (size_change inode offset amount) amount written

  -- One unit of fuel for each byte and one more.
  unfoldable pub write_file : Memory → ℕ → Memory → Fs W (Memory × ℕ)
  unfolding state write_loop end_loop
  write_file inode offset buf = do
    s ← state
    let block_size = s.block_size
    let limit =
        (Inode.direct_blocks
          + indirect_count block_size
          + doubly_count block_size
          + triply_count block_size)
        * block_size
    if leb limit (add64 offset (length buf))
        then pure (inode, 0)
        else write_loop (suc (length buf)) block_size inode offset buf 0
          >>= end_loop inode offset (length buf)
