-- ===== src/Fs/Ext2/Types.antt =====
-- Types and permissions of files in kernel/fs/ext2/ext2.cpp. A set of bits is the sum of its members.
pub mod RoundTrip
use influx.Base.{ℕ, ◌+◌, ◌/◌, ◌%◌, ◌^◌, Bool, true, false, ◌==◌, if◌then◌else◌}
use influx.Fs.Memory.{Memory, get}
use influx.Fs.Ext2.Inode
use influx.Vfs.Data.{
  FileType, unknown, regular, directory, character_device, block_device, fifo, socket,
  symbolic_link, FilePermissions,
}

unfoldable pub has_bit : ℕ → ℕ → Bool
has_bit n i = (n / 2 ^ i) % 2 == 1

-- `types_permissions & directory` and `types_permissions & user_write`: bits 14 and 7.
unfoldable pub has_directory_bit : Memory → Bool
unfolding has_bit get
has_directory_bit inode = has_bit (get Inode.types_permissions inode) 14

unfoldable pub is_writable : Memory → Bool
unfolding has_bit get
is_writable inode = has_bit (get Inode.types_permissions inode) 7

-- By the type of an entry.
unfoldable pub entry_file_type : ℕ → FileType
entry_file_type code =
    if code == 1
    then regular
    else if code == 2
    then directory
    else if code == 3
    then character_device
    else if code == 4
    then block_device
    else if code == 5
    then fifo
    else if code == 6
    then socket
    else if code == 7
    then symbolic_link
    else unknown

unfoldable pub ext2_dir_entry_type_for_file_type : FileType → ℕ
ext2_dir_entry_type_for_file_type regular = 1
ext2_dir_entry_type_for_file_type directory = 2
ext2_dir_entry_type_for_file_type character_device = 3
ext2_dir_entry_type_for_file_type block_device = 4
ext2_dir_entry_type_for_file_type fifo = 5
ext2_dir_entry_type_for_file_type socket = 6
ext2_dir_entry_type_for_file_type symbolic_link = 7
ext2_dir_entry_type_for_file_type unknown = 0

-- The bits of `EXT2_INODE_TYPES_MASK`, of 16.
unfoldable pub file_type_of : ℕ → FileType
file_type_of types_permissions =
    let types = (types_permissions / 0x1000) % 16 in
    if types == 1
    then fifo
    else if types == 2
    then character_device
    else if types == 4
    then directory
    else if types == 6
    then block_device
    else if types == 8
    then regular
    else if types == 10
    then symbolic_link
    else if types == 12
    then socket
    else unknown

unfoldable pub file_type_for_inode : Memory → FileType
unfolding file_type_of get
file_type_for_inode inode = file_type_of (get Inode.types_permissions inode)

unfoldable pub permissions_of : ℕ → FilePermissions
unfolding has_bit
permissions_of types_permissions = record {
  read = has_bit types_permissions 8;
  write = has_bit types_permissions 7;
  execute = has_bit types_permissions 6;
}

unfoldable pub file_permissions_for_inode : Memory → FilePermissions
unfolding permissions_of get
file_permissions_for_inode inode = permissions_of (get Inode.types_permissions inode)

unfoldable pub type_bits : FileType → ℕ
type_bits regular = 0x8000
type_bits directory = 0x4000
type_bits character_device = 0x2000
type_bits block_device = 0x6000
type_bits fifo = 0x1000
type_bits socket = 0xc000
type_bits symbolic_link = 0xa000
type_bits unknown = 0

unfoldable pub ext2_file_types_permissions : FileType → FilePermissions → ℕ
unfolding type_bits
ext2_file_types_permissions type permissions =
    type_bits type
    + (if permissions.read then 0x100 else 0)
    + (if permissions.write then 0x80 else 0)
    + (if permissions.execute then 0x40 else 0)
