-- ===== src/Fs/Ext2/Entry.antt =====
-- The members of `ext2_dir_entry`, include/kernel/fs/ext2/dir_entry.h. The name stands behind them.
use influx.Base.{ℕ}
use influx.Fs.Memory.{Field, field}

abbrev pub size_of : ℕ
size_of = 8

abbrev pub inode : Field
inode = field 4 0

abbrev pub size : Field
size = field 2 4

abbrev pub name_len : Field
name_len = field 1 6

abbrev pub type : Field
type = field 1 7
