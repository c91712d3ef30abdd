-- ===== src/Fs/Ext2/Files/Ends.antt =====
-- The end of the loop of `write_file` in kernel/fs/ext2/ext2.cpp.
use influx.Base.{
  ℕ, zero, suc, ◌+◌, ◌-◌, ◌%◌, ◌≤◌, ◌<◌, min, Bool, true, Option, none, some, length, leb, ◌==◌,
  if◌then◌else◌, add64, arith, Bool-cases, inl, inr,
}
use native.Mathlib.Nat.{mod-lt}
use influx.Fs.Memory.{Memory, load}
use influx.Fs.Ext2.Device.{Drive, Ext2, Fs, pure, ◌>>=◌, drive_write, is_interrupted, mul32}
use influx.Fs.Ext2.Outcome.{Ensures, Ensures-bind, Ensures-then, Ensures-if}
use influx.Fs.Ext2.Blocks.{get_block_for_offset}
use influx.Fs.Ext2.Files.{write_part, write_round, write_loop}

-- A round that keeps what holds of the inode and leaves the loop, or writes at least a byte and no more
-- than the rest of the buffer.
abbrev pub IsRound : (Memory → Type 0) → Memory → ℕ → Memory × Option ℕ → Type 0
IsRound P buf current_offset (inode, none) = P inode
IsRound P buf current_offset (inode, some n) = P inode × (0 < n) × (n ≤ length buf - current_offset)

-- An end of the loop that keeps what holds of the inode and writes no more than the buffer.
abbrev pub IsDone : (Memory → Type 0) → Memory → Option (Memory × ℕ) → Type 0
IsDone P buf none = ⊥
IsDone P buf (some (inode, written)) = P inode × (written ≤ length buf)

module _ {W : Type 0} (drive : Drive W) (P : Memory → Type 0)
    (kept : (inode : Memory) (offset : ℕ) (s : Ext2 W)
      → P inode
      → Ensures
          (λ (found : Memory × ℕ). P found.0)
          (get_block_for_offset drive inode offset true s)) where
  write_part-IsRound :
      (block_size offset : ℕ) (buf : Memory) (current_offset : ℕ) (found : Memory × ℕ) (s : Ext2 W)
      → 0 < block_size
      → current_offset < length buf
      → P found.0
      → Ensures
          (IsRound P buf current_offset)
          (write_part drive block_size offset buf current_offset found s)
  unfolding write_part drive_write
  write_part-IsRound block_size offset buf current_offset (inode, block) s whole more h =
      let skipped = add64 offset current_offset % block_size in
      let amount = min (block_size - skipped) (length buf - current_offset) in
      let room : skipped < block_size = mod-lt (add64 offset current_offset) whole in
      Ensures-if (IsRound P buf current_offset) (block == 0) (pure (inode, none))
        (drive_write drive (mul32 block block_size + skipped) (load current_offset amount buf)
          >>= λ written. pure (inode, if written == amount then some amount else none))
        s (λ e. h)
        (λ e.
          Ensures-then (IsRound P buf current_offset)
            (drive_write drive (mul32 block block_size + skipped) (load current_offset amount buf))
            (λ written. pure (inode, if written == amount then some amount else none)) s
            (λ written s'. elim (Bool-cases (written == amount)) [
              | inl all ↦ rw all (h, omega arith, omega arith)
              | inr less ↦ rw less h
            ]))

  write_round-IsRound :
      (block_size : ℕ) (inode : Memory) (offset : ℕ) (buf : Memory) (current_offset : ℕ)
      (s : Ext2 W)
      → 0 < block_size
      → current_offset < length buf
      → P inode
      → Ensures
          (IsRound P buf current_offset)
          (write_round drive block_size inode offset buf current_offset s)
  unfolding write_round
  write_round-IsRound block_size inode offset buf current_offset s whole more h =
      Ensures-then (IsRound P buf current_offset) (is_interrupted drive) next s (λ interrupted s1.
        Ensures-if (IsRound P buf current_offset) interrupted (pure (inode, none)) found_block s1
          (λ e. h)
          (λ e.
            Ensures-bind (IsRound P buf current_offset) (λ found. P found.0)
              (get_block_for_offset drive inode (add64 offset current_offset) true)
              (write_part drive block_size offset buf current_offset) s1
              (kept inode (add64 offset current_offset) s1 h)
              (λ found s2 k.
                write_part-IsRound block_size offset buf current_offset found s2 whole more k)))
    where
      found_block : Fs W (Memory × Option ℕ)
      found_block =
          get_block_for_offset drive inode (add64 offset current_offset) true
          >>= write_part drive block_size offset buf current_offset

      next : Bool → Fs W (Memory × Option ℕ)
      next interrupted = if interrupted then pure (inode, none) else found_block

  pub write_loop-IsDone :
      (fuel block_size : ℕ) (inode : Memory) (offset : ℕ) (buf : Memory) (current_offset : ℕ)
      (s : Ext2 W)
      → 0 < block_size
      → P inode
      → current_offset ≤ length buf
      → length buf < fuel + current_offset
      → Ensures (IsDone P buf) (write_loop drive fuel block_size inode offset buf current_offset s)
  unfolding write_loop
  write_loop-IsDone zero block_size inode offset buf current_offset s whole h within enough =
      absurd (omega arith)
  write_loop-IsDone (suc fuel) block_size inode offset buf current_offset s whole h within enough =
      Ensures-if (IsDone P buf) (leb (length buf) current_offset)
        (pure (some (inode, current_offset)))
        (write_round drive block_size inode offset buf current_offset >>= next) s (λ e. (h, within))
        (λ e.
          let more : current_offset < length buf = ground arith in
          Ensures-bind (IsDone P buf) (IsRound P buf current_offset)
            (write_round drive block_size inode offset buf current_offset) next s
            (write_round-IsRound block_size inode offset buf current_offset s whole more h)
            (after (λ inode' n s' k less.
              write_loop-IsDone fuel block_size inode' offset buf (current_offset + n) s' whole k
                less.1 (omega (arith, less.0)))))
    where
      next : Memory × Option ℕ → Fs W (Option (Memory × ℕ))
      next round = elim round.1 [
        | none ↦ pure (some (round.0, current_offset))
        | some n ↦ write_loop drive fuel block_size round.0 offset buf (current_offset + n)
      ]

      after :
          ((inode' : Memory) (n : ℕ) (s' : Ext2 W)
            → P inode'
            → (0 < n) × (current_offset + n ≤ length buf)
            → Ensures
                (IsDone P buf)
                (write_loop drive fuel block_size inode' offset buf (current_offset + n) s'))
          → (round : Memory × Option ℕ) (s' : Ext2 W) → IsRound P buf current_offset round
          → Ensures (IsDone P buf) (next round s')
      after again (inode', none) s' k = (k, within)
      after again (inode', some n) s' (k, some_byte, part) =
          again inode' n s' k (some_byte, omega arith)
