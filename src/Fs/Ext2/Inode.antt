-- ===== src/Fs/Ext2/Inode.antt =====
-- The members of `ext2_inode`, include/kernel/fs/ext2/inode.h, and the bits of its types and permissions.
use influx.Base.{ℕ, ◌+◌, ◌*◌}
use influx.Fs.Memory.{Field, field}

abbrev pub size_of : ℕ
size_of = 128

abbrev pub types_permissions : Field
types_permissions = field 2 0

abbrev pub user_id : Field
user_id = field 2 2

abbrev pub size : Field
size = field 4 4

abbrev pub last_access_time : Field
last_access_time = field 4 8

abbrev pub creation_time : Field
creation_time = field 4 12

abbrev pub last_modification_time : Field
last_modification_time = field 4 16

abbrev pub group_id : Field
group_id = field 2 24

abbrev pub hard_links_count : Field
hard_links_count = field 2 26

abbrev pub disk_sectors_count : Field
disk_sectors_count = field 4 28

abbrev pub block_pointer : ℕ → Field
block_pointer i = field 4 (40 + 4 * i)

abbrev pub direct_blocks : ℕ
direct_blocks = 12

abbrev pub indirect_block : ℕ
indirect_block = 12

abbrev pub doubly_indirect_block : ℕ
doubly_indirect_block = 13

abbrev pub triply_indirect_block : ℕ
triply_indirect_block = 14
