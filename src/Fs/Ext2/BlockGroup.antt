-- ===== src/Fs/Ext2/BlockGroup.antt =====
-- The members of `ext2_block_group_desc`, include/kernel/fs/ext2/block_group_desc.h.
use influx.Base.{ℕ}
use influx.Fs.Memory.{Field, field}

abbrev pub size_of : ℕ
size_of = 32

abbrev pub block_bitmap_block : Field
block_bitmap_block = field 4 0

abbrev pub inode_bitmap_block : Field
inode_bitmap_block = field 4 4

abbrev pub inode_table_start_block : Field
inode_table_start_block = field 4 8

abbrev pub free_blocks_count : Field
free_blocks_count = field 2 12

abbrev pub free_inodes_count : Field
free_inodes_count = field 2 14
