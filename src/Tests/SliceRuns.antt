-- ===== src/Tests/SliceRuns.antt =====
-- Runs of kernel/drivers/ata/slice.cpp over a drive of a few sectors.
use influx.Base.{
  ◌+◌, ◌*◌, ◌≡◌, refl, false, ◌++◌, some, length, get_elem?, length-replicate, replicate, arith,
}
use influx.Fs.Memory.{Memory, load, store}
use influx.Drivers.Slice.{Ata, read, write}
use influx.Drivers.Slice.Read.{Serves, read-load}

-- Three sectors that do not change.
abbrev sectors : Memory
sectors = replicate 600 1 ++ replicate 936 2

abbrev fixed_drive : Ata (Unit {0})
fixed_drive = record {
  read_sectors = λ lba n w. ((n, load (lba * 512) (n * 512) sectors), w);
  write_sectors = λ lba n bytes w. (n, w);
  interrupted = λ w. (false, w);
  kmalloc = λ n w. (some (replicate n 77), w);
}

fixed_drive-Serves : Serves fixed_drive sectors
fixed_drive-Serves = record {
  reads = λ lba n w few h. refl;
  calm = λ w. refl;
  memory = λ n w. (replicate n 77, refl, length-replicate n 77);
}

read-load_example : read fixed_drive false 1 40 100 tt ≡ (load (1 * 512 + 40) 100 sectors, tt)
unfolding influx.Drivers.Slice.sector_count
read-load_example =
    read-load fixed_drive sectors false 1 40 100 tt fixed_drive-Serves (omega arith) (omega arith)
      (omega arith) (omega arith) (omega arith)

-- A drive over its bytes, with new memory full of 77.
abbrev byte_drive : Ata Memory
byte_drive = record {
  read_sectors = λ lba n disk. ((n, load (lba * 512) (n * 512) disk), disk);
  write_sectors = λ lba n bytes disk. (n, store (lba * 512) bytes disk);
  interrupted = λ disk. (false, disk);
  kmalloc = λ n disk. (some (replicate n 77), disk);
}

-- A write of the second half of a sector changes the next sector too.
next_sector :
    get_elem? ((write byte_drive false 0 256 (replicate 256 9) (replicate 1024 5)).1) 512 ≡ some 77
unfolding write
next_sector = refl

abbrev dead_drive : Ata (Unit {0})
dead_drive = record fixed_drive { read_sectors = λ lba n w. ((0, replicate 0 0), w) }

-- A read that fails is answered as a whole one if it begins inside a sector.
failed_read : length (read dead_drive false 0 40 100 tt).0 ≡ 100
unfolding read influx.Drivers.Slice.reduced influx.Drivers.Slice.read_loop
    influx.Drivers.Slice.rounds influx.Drivers.Slice.sector_count influx.Fs.Memory.load
    influx.Fs.Memory.store
failed_read = refl
