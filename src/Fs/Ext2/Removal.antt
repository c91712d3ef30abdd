-- ===== src/Fs/Ext2/Removal.antt =====
-- `remove_dir_entry` of kernel/fs/ext2/ext2.cpp.
use influx.Base.{
  ℕ, zero, suc, ◌+◌, ◌-◌, ◌/◌, Bool, true, false, not, ◌&&◌, ◌||◌, Option, none, some, length, ltb,
  leb, ◌==◌, if◌then◌else◌,
}
use influx.Base.Run.{Run, ok, fault, out_of_bounds, out_of_fuel}
use influx.Fs.Memory.{Memory, get, put, store, load}
use influx.Fs.Ext2.Inode
use influx.Fs.Ext2.Entry
use influx.Fs.Ext2.Device.{Drive, Fs, pure, ◌>>=◌, lift, drive_write, get_inode, new_buffer, add16}
use influx.Fs.Ext2.Files.{read_file}
use influx.Fs.Ext2.Directories.{entry_at, entry_name}
use influx.Vfs.Path.{Text, text_eq}

-- Whether the entry is the one with the name.
unfoldable pub is_named : Text → Memory → Run Bool
unfolding entry_name text_eq get
is_named name e =
    if get Entry.inode e == 0 || not (get Entry.name_len e == length name)
    then ok false
    else elim (entry_name e) [ fault f ↦ fault f | ok n ↦ ok (text_eq n name) ]

-- Where the loop ends: the offset of the entry if it is found, and that of the one before.
pub record Position : Type 0 where
  pub offset : ℕ
  pub before : Option ℕ
  pub found : Bool

unfoldable pub search_loop : ℕ → Text → ℕ → Memory → ℕ → Option ℕ → Run Position
unfolding entry_at is_named get
search_loop zero name size buf offset before = fault out_of_fuel
search_loop (suc fuel) name size buf offset before =
    if not (ltb offset size)
    then ok (record { offset = offset; before = before; found = false })
    else elim (entry_at buf offset) [
      | fault e ↦ fault e
      | ok e ↦ elim (is_named name e) [
        | fault f ↦ fault f
        | ok true ↦ ok (record { offset = offset; before = before; found = true })
        | ok false ↦ search_loop fuel name size buf (offset + get Entry.size e) (some offset)
      ]
    ]

-- The buffer with the entry before, which takes the room of the removed one. The distance of the two is
-- counted in entries of 8 bytes, as the source subtracts pointers to them.
unfoldable pub merged_entry : Memory → ℕ → Memory → ℕ → Run Memory
unfolding get put load store
merged_entry prev prev_offset e offset =
    let distance = (offset - prev_offset) / Entry.size_of in
    let size = distance + get Entry.name_len e + Entry.size_of in
    let copied = Entry.size_of + get Entry.name_len prev in
    let grown = put Entry.size (add16 (get Entry.size prev) (get Entry.size e)) prev in
    if leb copied size && leb copied (length prev)
    then ok (store 0 (load 0 copied grown) (new_buffer size))
    else fault out_of_bounds

module _ {W : Type 0} (drive : Drive W) where
  -- The writes go to the offset in the directory, taken as an address of the drive.
  unfoldable pub remove_at : Memory → Position → Fs W Bool
  unfolding lift drive_write entry_at merged_entry put load
  remove_at buf p = if not p.found then pure false else do
    e ← lift (entry_at buf p.offset)
    elim p.before [
      | none ↦ do
        written ← drive_write drive p.offset (load 0 Entry.size_of (put Entry.inode 0 e))
        pure (written == Entry.size_of)
      | some before ↦ do
        prev ← lift (entry_at buf before)
        entry_buf ← lift (merged_entry prev before e p.offset)
        written ← drive_write drive before entry_buf
        pure (written == length entry_buf)
    ]

  unfoldable pub remove_dir_entry : ℕ → ℕ → Text → Fs W Bool
  unfolding lift get_inode read_file search_loop remove_at get
  remove_dir_entry fuel dir_inode name = get_inode drive dir_inode >>= λ found. elim found [
    | none ↦ pure false
    | some inode_obj ↦ do
      let size = get Inode.size inode_obj
      content ← read_file drive fuel inode_obj 0 size
      if length content.1 == 0 then pure false else do
        position ← lift (search_loop fuel name size content.1 0 none)
        remove_at content.1 position
  ]
