-- ===== src/Fs/Ext2/Superblock.antt =====
-- The members of `ext2_superblock` that the code uses, include/kernel/fs/ext2/superblock.h.
use influx.Base.{ℕ}
use influx.Fs.Memory.{Field, field}

abbrev pub size_of : ℕ
size_of = 200

abbrev pub inodes_count : Field
inodes_count = field 4 0

abbrev pub blocks_count : Field
blocks_count = field 4 4

abbrev pub free_blocks_count : Field
free_blocks_count = field 4 12

abbrev pub free_inodes_count : Field
free_inodes_count = field 4 16

abbrev pub log_block_size : Field
log_block_size = field 4 24

abbrev pub blocks_per_group : Field
blocks_per_group = field 4 32

abbrev pub inodes_per_group : Field
inodes_per_group = field 4 40

abbrev pub mount_time : Field
mount_time = field 4 44

abbrev pub magic : Field
magic = field 2 56

abbrev pub inode_size : Field
inode_size = field 2 88

abbrev pub last_mounted_path : Field
last_mounted_path = field 64 136
