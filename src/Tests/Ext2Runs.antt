-- ===== src/Tests/Ext2Runs.antt =====
-- Runs of kernel/fs/ext2/ext2.cpp over a disk of 4096 bytes in blocks of 256, with one block group.
use influx.Base.{
  ℕ, ◌≡◌, refl, true, false, [], ◌∷◌, ◌++◌, Option, none, some, length, replicate, leb, arith,
}
use influx.Base.Run.{Run, ok, fault}
use influx.Fs.Memory.{Memory, get, put, load, store}
use influx.Fs.Ext2.Superblock
use influx.Fs.Ext2.BlockGroup
use influx.Fs.Ext2.Inode
use influx.Fs.Ext2.Device.{Drive, Ext2, pure, ◌>>=◌, divide}
use influx.Fs.Ext2.Outcome.{Ensures}
use influx.Fs.Ext2.Allocation.{alloc_block}
use influx.Fs.Ext2.Files.{write_file, read_file}
use influx.Fs.Ext2.Types.{
  file_type_of, permissions_of, ext2_file_types_permissions, entry_file_type,
  ext2_dir_entry_type_for_file_type,
}
use influx.Fs.Ext2.Types.RoundTrip.{permissions_of-types}
use influx.Fs.Ext2.Blocks.{add_sectors}
use influx.Fs.Ext2.Entries.{entry_room, entry_bytes}
use influx.Vfs.Data.{FilePermissions, directory}
use influx.Fs.Ext2.Files.Size.{EndsAt, write_file-EndsAt}

-- The drive is its bytes; nothing interrupts, and the time is 7.
abbrev disk_drive : Drive Memory
disk_drive = record {
  read = λ address amount disk. (load address amount disk, disk);
  write = λ address bytes disk. (length bytes, store address bytes disk);
  interrupted = λ disk. (false, disk);
  unix_timestamp = λ disk. (7, disk);
}

-- 16 blocks of which the first 8 are in use, and 4 inodes of which the first 2 are.
abbrev small_sb : Memory
small_sb = put Superblock.inodes_count 4 (
    put Superblock.blocks_count 16 (
      put Superblock.free_blocks_count 8 (
        put Superblock.free_inodes_count 2 (
          put Superblock.blocks_per_group 16 (
            put Superblock.inodes_per_group 4 (put Superblock.inode_size 128 (replicate 200 0)))))))

abbrev small_group : Memory
small_group = put BlockGroup.block_bitmap_block 2 (
    put BlockGroup.inode_bitmap_block 3 (
      put BlockGroup.inode_table_start_block 5
        (put BlockGroup.free_blocks_count 8 (put BlockGroup.free_inodes_count 2 (replicate 32 0)))))

abbrev small_disk : Memory
small_disk =
    store 256 small_group
      (store 512 (255 ∷ 0 ∷ []) (store 768 (3 ∷ []) (store 1024 small_sb (replicate 4096 0))))

abbrev small_fs : Ext2 Memory
small_fs = record {
  sb = small_sb;
  block_size = 256;
  block_groups = small_group ∷ [];
  world = small_disk;
}

abbrev reads_only : FilePermissions
reads_only = record { read = true; write = false; execute = false }

-- A file of 10 bytes in block 7.
abbrev ten_bytes : Memory
ten_bytes = put (Inode.block_pointer 0) 7 (put Inode.size 10 (replicate 128 0))

abbrev answer : {A : Type 0} → Run (A × Ext2 Memory) → Option A
answer (ok (a, s)) = some a
answer (fault e) = none

first_free_block : answer (alloc_block disk_drive small_fs) ≡ some 8
unfolding alloc_block put
first_free_block = refl

-- A write of two bytes at the start of the file of ten bytes.
shrunk_size :
    answer
      ((write_file disk_drive ten_bytes 0 (1 ∷ 2 ∷ []) >>= λ r. pure (get Inode.size r.0)) small_fs)
    ≡ some 2
unfolding write_file divide
shrunk_size = refl

-- The bytes of a file, written over two blocks and read.
written_and_read :
    answer {A = ℕ × Memory} (
      (write_file disk_drive (replicate 128 0) 0 (replicate 250 1 ++ replicate 20 2) >>= λ r.
      read_file disk_drive 3 r.0 240 30 >>= λ q. pure (r.1, q.1))
        small_fs)
    ≡ some (270, replicate 10 1 ++ replicate 20 2)
unfolding write_file read_file alloc_block divide put add_sectors
written_and_read = refl

write_file-EndsAt_example :
    Ensures (EndsAt 2) (write_file disk_drive ten_bytes 2 (1 ∷ 2 ∷ 3 ∷ []) small_fs)
write_file-EndsAt_example =
    write_file-EndsAt disk_drive ten_bytes 2 (1 ∷ 2 ∷ 3 ∷ []) small_fs (unfold put in refl)
      (unfold get put in omega arith) (omega arith) (omega arith)

permissions_of-types_example :
    (file_type_of (ext2_file_types_permissions directory reads_only) ≡ directory)
    × (permissions_of (ext2_file_types_permissions directory reads_only) ≡ reads_only)
    × (entry_file_type (ext2_dir_entry_type_for_file_type directory) ≡ directory)
permissions_of-types_example = permissions_of-types directory reads_only

-- An entry of 12 bytes with a name of 4 at offset 0 has no byte to spare, and is taken to have room.
packed_entry : leb 12 (entry_room 0 (entry_bytes 2 12 1 (b'h' ∷ b'o' ∷ b'm' ∷ b'e' ∷ []))) ≡ true
unfolding entry_room entry_bytes
packed_entry = refl
