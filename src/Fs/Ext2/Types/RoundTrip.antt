-- ===== src/Fs/Ext2/Types/RoundTrip.antt =====
-- Types and permissions of files of kernel/fs/ext2/ext2.cpp, written and read.
use influx.Base.{◌≡◌, Bool, arith}
use influx.Vfs.Data.{
  FileType, unknown, regular, directory, character_device, block_device, fifo, socket,
  symbolic_link, FilePermissions,
}
use influx.Fs.Ext2.Types.{
  entry_file_type, ext2_dir_entry_type_for_file_type, file_type_of, permissions_of,
  ext2_file_types_permissions,
}

-- What is read of the bits that are written for a type and its permissions.
abbrev ReadsBack : FileType → FilePermissions → Type 0
ReadsBack type permissions =
    (file_type_of (ext2_file_types_permissions type permissions) ≡ type)
    × (permissions_of (ext2_file_types_permissions type permissions) ≡ permissions)
    × (entry_file_type (ext2_dir_entry_type_for_file_type type) ≡ type)

of_bits :
    (type : FileType) (r w x : Bool) → ReadsBack type (record { read = r; write = w; execute = x })
unfolding file_type_of permissions_of ext2_file_types_permissions entry_file_type
    ext2_dir_entry_type_for_file_type
of_bits unknown r w x = ground arith
of_bits regular r w x = ground arith
of_bits directory r w x = ground arith
of_bits character_device r w x = ground arith
of_bits block_device r w x = ground arith
of_bits fifo r w x = ground arith
of_bits socket r w x = ground arith
of_bits symbolic_link r w x = ground arith

-- For every type of file and all permissions: the type and the permissions that are read of the bits
-- which `ext2_file_types_permissions` makes are these, and the type that is read of the type of a
-- directory entry is the one it was made of.
pub permissions_of-types :
    (type : FileType) (permissions : FilePermissions) → ReadsBack type permissions
permissions_of-types type permissions =
    of_bits type permissions.read permissions.write permissions.execute
