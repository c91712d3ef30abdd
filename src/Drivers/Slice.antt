-- ===== src/Drivers/Slice.antt =====
-- The slice of an ATA drive, kernel/drivers/ata/slice.cpp: accesses to bytes, over accesses to sectors.
pub mod Load
pub mod Read
use influx.Base.{
  ℕ, zero, suc, ◌+◌, ◌-◌, ◌*◌, ◌/◌, ◌%◌, ◌^◌, min, Bool, true, false, not, ◌&&◌, ◌||◌, [], Option,
  none, some, length, take, ltb, ◌==◌, if◌then◌else◌, sub64, add64,
}
use influx.Fs.Memory.{Memory, load, store}

-- What the slice calls, over a state: `access_drive_sectors` from a sector on, which gives the number of
-- sectors it has read and what is then in the buffer, or which writes; `interrupted` of the scheduler;
-- and `kmalloc`, whose memory holds any bytes, none being the null pointer.
pub record Ata (W : Type 0) : Type 0 where
  pub read_sectors : ℕ → ℕ → W → (ℕ × Memory) × W
  pub write_sectors : ℕ → ℕ → Memory → W → ℕ × W
  pub interrupted : W → Bool × W
  pub kmalloc : ℕ → W → Option Memory × W

abbrev pub sector_size : ℕ
sector_size = 512

abbrev pub max_access : ℕ
max_access = 256

-- The sectors that an access needs, of `uint16_t`.
unfoldable pub sector_count : ℕ → ℕ → ℕ
sector_count address amount =
    ((if amount % sector_size == 0 then amount / sector_size else amount / sector_size + 1)
      + (if not (address % sector_size == 0)
            && not (add64 address amount / sector_size == address / sector_size)
          then 1
          else 0))
    % 2 ^ 16

unfoldable pub first_sector : ℕ → ℕ → ℕ
first_sector start_lba address = (start_lba + address / sector_size % 2 ^ 32) % 2 ^ 32

-- The rounds of the loops, and the sectors of round `i`.
unfoldable pub rounds : ℕ → ℕ
rounds sectors = sectors / max_access + (if sectors % max_access == 0 then 0 else 1)

unfoldable pub round_sectors : ℕ → ℕ → ℕ
round_sectors sectors i = min max_access (sectors - i * max_access)

-- The amount at the end: the difference wraps around when nothing was moved.
unfoldable pub reduced : ℕ → ℕ → ℕ → ℕ
reduced address amount moved = min amount (sub64 moved (address % sector_size))

module _ {W : Type 0} (ata : Ata W) (interruptible : Bool) (start_lba : ℕ) where
  -- The loop of `read` over `count` rounds from round `i` on: the buffer and the bytes that are read.
  unfoldable pub read_loop : ℕ → ℕ → ℕ → ℕ → Memory → ℕ → W → (Memory × ℕ) × W
  unfolding round_sectors store
  read_loop zero i sectors lba buffer moved w = ((buffer, moved), w)
  read_loop (suc count) i sectors lba buffer moved w =
      let (interrupted, w1) = ata.interrupted w in
      let n = round_sectors sectors i in
      let ((done, bytes), w2) = ata.read_sectors ((lba + i * max_access) % 2 ^ 32) n w1 in
      let buffer' = store (i * max_access * sector_size) bytes buffer in
      let rest = read_loop count (i + 1) sectors lba buffer' (moved + n * sector_size) w2 in
      if interrupted && interruptible
      then ((buffer, moved), w1)
      else if not (done == n)
      then ((buffer', moved), w2)
      else rest

  -- The bytes that are copied to the caller's buffer.
  unfoldable pub read : ℕ → ℕ → W → Memory × W
  unfolding load
  read address amount w =
      let sectors = sector_count address amount in
      let (memory, w1) = ata.kmalloc (sectors * sector_size) w in
      elim memory [
        | none ↦ ([], w1)
        | some buffer ↦
            let ((filled, moved), w2) =
              read_loop (rounds sectors) 0 sectors (first_sector start_lba address) buffer 0 w1 in
            (load (address % sector_size) (reduced address amount moved) filled, w2)
      ]

  unfoldable pub write_loop : ℕ → ℕ → ℕ → ℕ → Memory → ℕ → W → ℕ × W
  unfolding round_sectors load
  write_loop zero i sectors lba buffer moved w = (moved, w)
  write_loop (suc count) i sectors lba buffer moved w =
      let (interrupted, w1) = ata.interrupted w in
      let n = round_sectors sectors i in
      let (done, w2) =
        ata.write_sectors ((lba + i * max_access) % 2 ^ 32) n
          (load (i * max_access * sector_size) (n * sector_size) buffer) w1 in
      let rest = write_loop count (i + 1) sectors lba buffer (moved + n * sector_size) w2 in
      if interrupted && interruptible
      then (moved, w1)
      else if not (done == n)
      then (moved, w2)
      else rest

  -- A sector is read into the buffer where the access begins or ends inside it; none is a failure.
  unfoldable pub fill_sector : Bool → ℕ → ℕ → Memory → W → Option Memory × W
  unfolding store
  fill_sector needed lba position buffer w =
      let ((done, bytes), w1) = ata.read_sectors lba 1 w in
      if not needed
      then (some buffer, w)
      else if done == 1
      then (some (store position bytes buffer), w1)
      else (none, w1)

  -- The last sector is looked for from the sector of the address on, by the whole address.
  unfoldable pub fill_ends : ℕ → ℕ → ℕ → Memory → W → Option Memory × W
  unfolding first_sector fill_sector
  fill_ends sectors address amount buffer w =
      let lba = first_sector start_lba address in
      let stop = add64 address amount in
      let (head, w1) =
        fill_sector (not (address % sector_size == 0) || sectors == 1) lba 0 buffer w in
      elim head [
        | none ↦ (none, w1)
        | some buffer' ↦
            fill_sector (not (stop % sector_size == 0) && ltb 1 sectors)
              ((lba + stop / sector_size) % 2 ^ 32) ((sectors - 1) * sector_size) buffer' w1
      ]

  unfoldable pub write : ℕ → Memory → W → ℕ × W
  unfolding sector_count first_sector rounds write_loop reduced fill_ends store
  write address bytes w =
      let amount = length bytes in
      let sectors = sector_count address amount in
      let (memory, w1) = ata.kmalloc (sectors * sector_size) w in
      elim memory [
        | none ↦ (0, w1)
        | some buffer ↦
            let (filled, w2) = fill_ends sectors address amount buffer w1 in
            elim filled [
              | none ↦ (0, w2)
              | some buffer' ↦
                  let (moved, w3) =
                    write_loop (rounds sectors) 0 sectors (first_sector start_lba address)
                      (store (address % sector_size) bytes buffer') 0 w2 in
                  (reduced address amount moved, w3)
            ]
      ]
