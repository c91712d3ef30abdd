-- ===== src/Drivers/Slice/Read.antt =====
-- A read of a slice of kernel/drivers/ata/slice.cpp from a drive that gives its sectors.
use influx.Base.{
  ℕ, zero, suc, ◌+◌, ◌-◌, ◌*◌, ◌/◌, ◌%◌, ◌^◌, ◌≤◌, ◌<◌, min, ◌≡◌, refl, sym, ap, ◌∙◌, Bool, true,
  false, ◌++◌, some, length, ◌==◌, u64_mod, arith,
}
use mathlib.Core.Path.{subst}
use influx.Fs.Memory.{Memory, load, store}
use influx.Drivers.Slice.{
  Ata, sector_count, first_sector, rounds, round_sectors, reduced, read_loop, read,
}
use influx.Drivers.Slice.Load.{load-load, length-load, load_split, length-store, load-store}

-- A drive with these bytes that reads up to 256 sectors at once, with no interrupt and enough memory.
pub record Serves {W : Type 0} (ata : Ata W) (disk : Memory) : Type 0 where
  pub reads :
      (lba n : ℕ) (w : W)
      → n ≤ 256
      → (lba + n) * 512 ≤ length disk
      → ata.read_sectors lba n w ≡ ((n, load (lba * 512) (n * 512) disk), w)
  pub calm : (w : W) → ata.interrupted w ≡ (false, w)
  pub memory : (n : ℕ) (w : W) → (m : Memory) × (ata.kmalloc n w ≡ (some m, w)) × (length m ≡ n)

-- What the loop has put into the buffer before round `i`.
record Filled (disk : Memory) (lba sectors i : ℕ) (buffer : Memory) (moved : ℕ) : Type 0 where
  sized : length buffer ≡ sectors * 512
  counted : moved ≡ min (i * 256) sectors * 512
  held :
      load 0 (min (i * 256) sectors * 512) buffer
      ≡ load (lba * 512) (min (i * 256) sectors * 512) disk

module _ {W : Type 0} (ata : Ata W) (disk : Memory) (serves : Serves ata disk)
    (interruptible : Bool) (start_lba lba sectors : ℕ)
    (within : (lba + sectors) * 512 ≤ length disk) (near : lba + sectors < 2 ^ 32) where
  -- One round.
  Filled-round :
      (i moved : ℕ) (buffer : Memory)
      → i * 256 < sectors
      → Filled disk lba sectors i buffer moved
      → let n = round_sectors sectors i in
        Filled disk lba sectors
          (i + 1)
          (store (i * 256 * 512) (load ((lba + i * 256) * 512) (n * 512) disk) buffer)
          (moved + n * 512)
  unfolding round_sectors
  Filled-round i moved buffer more f =
      let n = min 256 (sectors - i * 256) in
      let o = i * 256 * 512 in
      let bytes = load ((lba + i * 256) * 512) (n * 512) disk in
      let size : length bytes ≡ n * 512 =
        length-load ((lba + i * 256) * 512) (n * 512) disk (omega arith) in
      let before : min (i * 256) sectors * 512 ≡ o = omega arith in
      let after : min ((i + 1) * 256) sectors * 512 ≡ o + n * 512 = omega arith in
      let held : load 0 o buffer ≡ load (lba * 512) o disk = rw before at (f.held) in
      let place : (lba + i * 256) * 512 ≡ lba * 512 + o = omega arith in
      record {
        sized = length-store o bytes buffer (omega (arith, f.sized)) ∙ f.sized;
        counted = omega (arith, f.counted);
        held =
            ap (λ k. load 0 k (store o bytes buffer)) (after ∙ ap (λ k. o + k) (sym size))
            ∙ load-store o bytes buffer (omega (arith, f.sized))
            ∙ ap (λ ys. ys ++ bytes) held
            ∙ ap (λ k. load (lba * 512) o disk ++ load k (n * 512) disk) place
            ∙ sym (load_split (lba * 512) o (n * 512) disk)
            ∙ ap (λ k. load (lba * 512) k disk) (sym after);
      }

  read_loop_round :
      (count i moved : ℕ) (buffer : Memory) (w : W)
      → i * 256 < sectors
      → read_loop ata interruptible start_lba (suc count) i sectors lba buffer moved w
        ≡ read_loop ata interruptible start_lba count
            (i + 1)
            sectors
            lba
            (store
              (i * 256 * 512)
              (load ((lba + i * 256) * 512) (round_sectors sectors i * 512) disk)
              buffer)
            (moved + round_sectors sectors i * 512)
            w
  unfolding read_loop round_sectors
  read_loop_round count i moved buffer w more =
      let n = min 256 (sectors - i * 256) in
      let sector : (lba + i * 256) % 2 ^ 32 ≡ lba + i * 256 = omega arith in
      let same : (n == n) ≡ true = ground arith in
      rw (serves.calm w) (
        rw sector
          (rw (serves.reads (lba + i * 256) n w (omega arith) (omega arith)) (rw same refl)))

  -- The loop from round `i` on fills the buffer.
  read_loop-Filled :
      (count i moved : ℕ) (buffer : Memory) (w : W)
      → count + i ≡ rounds sectors
      → Filled disk lba sectors i buffer moved
      → (buffer' : Memory) × (moved' : ℕ) × (read_loop ata interruptible start_lba count i sectors
            lba buffer moved w
          ≡ ((buffer', moved'), w))
        × Filled disk lba sectors (rounds sectors) buffer' moved'
  unfolding read_loop
  read_loop-Filled zero i moved buffer w e f =
      let last : i ≡ rounds sectors = omega arith in
      (buffer, moved, refl, subst (λ k. Filled disk lba sectors k buffer moved) last f)
  read_loop-Filled (suc count) i moved buffer w e f =
      let more : i * 256 < sectors = unfold rounds in (ground arith) in
      let n = round_sectors sectors i in
      let (buffer', moved', run, full) =
        read_loop-Filled count (i + 1) (moved + n * 512)
          (store (i * 256 * 512) (load ((lba + i * 256) * 512) (n * 512) disk) buffer) w
          (omega arith) (Filled-round i moved buffer more f) in
      (buffer', moved', read_loop_round count i moved buffer w more ∙ run, full)

  -- From a new buffer on.
  read_loop-Full :
      (buffer : Memory) (w : W)
      → length buffer ≡ sectors * 512
      → (buffer' : Memory) × (read_loop ata interruptible start_lba
            (rounds sectors)
            0
            sectors
            lba
            buffer
            0
            w
          ≡ ((buffer', sectors * 512), w))
        × (load 0 (sectors * 512) buffer' ≡ load (lba * 512) (sectors * 512) disk)
  read_loop-Full buffer w size =
      let none_yet : min (0 * 256) sectors * 512 ≡ 0 = omega arith in
      let begun : Filled disk lba sectors 0 buffer 0 = record {
        sized = size;
        counted = omega arith;
        held = rw none_yet (unfold load in refl);
      } in
      let (buffer', moved, run, full) =
        read_loop-Filled (rounds sectors) 0 0 buffer w (omega arith) begun in
      let all : min (rounds sectors * 256) sectors ≡ sectors = unfold rounds in (ground arith) in
      let counted : moved ≡ sectors * 512 = full.counted ∙ ap (λ k. k * 512) all in
      (buffer', run ∙ ap (λ k. ((buffer', k), w)) counted, rw all at (full.held))

enough_sectors :
    (address amount : ℕ)
    → address + amount < u64_mod
    → 0 < amount
    → amount < 2 ^ 24
    → address % 512 + amount ≤ sector_count address amount * 512
unfolding sector_count
enough_sectors address amount word something small = ground arith

same_part :
    (xs ys : Memory) (a n m b : ℕ)
    → a + n ≤ m
    → load 0 m xs ≡ load b m ys
    → load a n xs ≡ load (b + a) n ys
same_part xs ys a n m b h e =
    let zero_on : 0 + a ≡ a = omega arith in
    ap (λ k. load k n xs) (sym zero_on)
    ∙ sym (load-load a n 0 m xs h)
    ∙ ap (load a n) e
    ∙ load-load a n b m ys h

-- What `read` answers when the loop has filled the buffer.
read-buffer :
    {W : Type 0} (ata : Ata W) (interruptible : Bool) (start_lba address amount : ℕ) (w : W)
    (buffer filled : Memory) (lba : ℕ)
    → ata.kmalloc (sector_count address amount * 512) w ≡ (some buffer, w)
    → first_sector start_lba address ≡ lba
    → read_loop ata interruptible start_lba
        (rounds (sector_count address amount))
        0
        (sector_count address amount)
        lba
        buffer
        0
        w
      ≡ ((filled, sector_count address amount * 512), w)
    → read ata interruptible start_lba address amount w ≡ (
      load (address % 512) (reduced address amount (sector_count address amount * 512)) filled,
      w,
    )
unfolding read
read-buffer ata interruptible start_lba address amount w buffer filled lba given first run =
    rw (given, read) (rw first (rw given (rw run refl)))

-- From a drive that answers every access to at most 256 of its sectors with their bytes, with no
-- interrupt and enough memory: `read` of more than no and fewer than 2 ^ 24 bytes, whose sectors all
-- lie on the drive and below 2 ^ 32, answers the bytes of the drive from the first byte of the slice
-- plus the address on, however they lie in the sectors.
pub read-load :
    {W : Type 0} (ata : Ata W) (disk : Memory) (interruptible : Bool) (start_lba address amount : ℕ)
    (w : W)
    → Serves ata disk
    → (start_lba + address / 512 + sector_count address amount) * 512 ≤ length disk
    → start_lba + address / 512 + sector_count address amount < 2 ^ 32
    → address + amount < u64_mod
    → 0 < amount
    → amount < 2 ^ 24
    → read ata interruptible start_lba address amount w
      ≡ (load (start_lba * 512 + address) amount disk, w)
read-load ata disk interruptible start_lba address amount w serves within near word something
      small =
    let sectors = sector_count address amount in
    let lba = start_lba + address / 512 in
    let (buffer, given, size) = serves.memory (sectors * 512) w in
    let first : first_sector start_lba address ≡ lba = unfold first_sector in (omega arith) in
    let (filled, run, held) =
      read_loop-Full ata disk serves interruptible start_lba lba sectors within near buffer w
        size in
    let enough : address % 512 + amount ≤ sectors * 512 =
      enough_sectors address amount word something small in
    let all : reduced address amount (sectors * 512) ≡ amount = unfold reduced in (omega arith) in
    read-buffer ata interruptible start_lba address amount w buffer filled lba given first run
    ∙ ap (λ n. (load (address % 512) n filled, w)) all
    ∙ ap (λ bytes. (bytes, w))
        (same_part filled disk (address % 512) amount (sectors * 512) (lba * 512) enough held
          ∙ ap (λ k. load k amount disk) {x = lba * 512 + address % 512} (omega arith))
