-- ===== src/Fs/Ext2/Entries.antt =====
-- The changes of a directory in kernel/fs/ext2/ext2.cpp: `create_dir_entry` and `remove_dir_entry`.
use influx.Base.{
  ℕ, zero, suc, ◌+◌, ◌-◌, ◌/◌, ◌%◌, ◌^◌, Bool, not, ◌&&◌, ◌++◌, Option, none, some, length, ltb,
  leb, ◌==◌, if◌then◌else◌, sub64,
}
use influx.Base.Run.{Run, ok, fault, out_of_fuel, null_pointer}
use influx.Fs.Memory.{Memory, get, put, load, bytes_of}
use influx.Fs.Ext2.Inode
use influx.Fs.Ext2.Entry
use influx.Fs.Ext2.Device.{
  Drive, Fs, pure, ◌>>=◌, ◌>>◌, state, lift, stop, assert, add16, sub16, add32,
}
use influx.Fs.Ext2.Files.{read_file, write_file}
use influx.Fs.Ext2.Directories.{entry_at, entry_name}
use influx.Vfs.Path.{Text}
use influx.Vfs.Data.{Error, io_error}

-- The bytes of an entry: its members and its name.
unfoldable pub entry_bytes : ℕ → ℕ → ℕ → Text → Memory
unfolding bytes_of
entry_bytes inode size type name =
    bytes_of 4 inode ++ (bytes_of 2 size ++ (bytes_of 1 (length name) ++ (bytes_of 1 type ++ name)))

-- The bytes from the end of an offset's entry to the next multiple of 4, which are never 0.
unfoldable pub padding : ℕ → ℕ
padding stop = 4 - stop % 4

-- What the loop of `create_dir_entry` compares with the size of the new entry; the differences are of
-- `uint64_t`.
unfoldable pub entry_room : ℕ → Memory → ℕ
unfolding get padding
entry_room offset e =
    sub64 (sub64 (sub64 (get Entry.size e) (get Entry.name_len e)) Entry.size_of)
      (padding (offset + get Entry.name_len e + Entry.size_of))

-- The offset that the new entry would have behind an entry.
unfoldable pub offset_behind : ℕ → Memory → ℕ
unfolding get padding
offset_behind offset e =
    let stop = offset + get Entry.name_len e + Entry.size_of in stop + padding stop

-- Whether an entry of this size at this offset lies in one block.
unfoldable pub in_one_block : ℕ → ℕ → ℕ → Bool
in_one_block block_size size offset = offset / block_size == (offset + size) / block_size

-- Where the loop ends: `dir_file_offset`, the last entry it looked at, and `new_dir_entry_offset`.
pub record Place : Type 0 where
  pub dir_file_offset : ℕ
  pub entry_offset : Option ℕ
  pub new_offset : ℕ

unfoldable pub place_loop : ℕ → ℕ → ℕ → ℕ → Memory → Place → Run Place
unfolding entry_at entry_room offset_behind in_one_block get
place_loop zero block_size new_size size buf p = fault out_of_fuel
place_loop (suc fuel) block_size new_size size buf p =
    if not (ltb p.dir_file_offset size) then ok p else elim (entry_at buf p.dir_file_offset) [
      | fault e ↦ fault e
      | ok e ↦
          let offset = p.dir_file_offset in
          let room = leb new_size (entry_room offset e) in
          let behind = if room then offset_behind offset e else p.new_offset in
          let here : Place = record {
            dir_file_offset = offset;
            entry_offset = some offset;
            new_offset = behind;
          } in
          let rest =
            place_loop fuel block_size new_size size buf
              (record here { dir_file_offset = offset + get Entry.size e }) in
          if room && in_one_block block_size new_size behind then ok here else rest
    ]

-- The bytes up to a multiple of the block size.
unfoldable pub block_padding : ℕ → ℕ → ℕ
block_padding block_size size = if size % block_size == 0 then 0 else block_size - size % block_size

module _ {W : Type 0} (drive : Drive W) where
  -- The new entry, and the size of the directory.
  unfoldable pub append_entry : Memory → ℕ → Memory → Fs W (Memory × Option Error)
  unfolding state write_file block_padding get put
  append_entry dir_inode offset bytes = do
    s ← state
    done ← write_file drive dir_inode offset bytes
    let size = get Inode.size done.0
    if done.1 == 0
        then pure (done.0, some io_error)
        else pure (put Inode.size (add32 size (block_padding s.block_size size)) done.0, none)

  -- The entry before the new one is cut to its length and written again.
  unfoldable pub split_entry : Memory → Memory → Memory → Place → Fs W (Memory × Option Error)
  unfolding lift stop write_file append_entry entry_at entry_name get put load
  split_entry dir_inode header buf place = elim place.entry_offset [
    | none ↦ stop null_pointer
    | some offset ↦ do
      e ← lift (entry_at buf offset)
      name ← lift (entry_name e)
      let new_size = sub16 (add16 place.dir_file_offset (get Entry.size e)) place.new_offset
      let cut = put Entry.size (sub16 place.new_offset place.dir_file_offset) e
      done ←
          write_file drive dir_inode place.dir_file_offset
            (load 0 (Entry.size_of + length name) cut)
      if done.1 == 0
          then pure (done.0, some io_error)
          else append_entry done.0 place.new_offset (put Entry.size new_size header)
  ]

  -- An empty buffer is a failed read, or an empty directory.
  unfoldable pub create_dir_entry : ℕ → Memory → ℕ → ℕ → Text → Fs W (Memory × Option Error)
  unfolding state assert lift read_file place_loop append_entry split_entry entry_bytes
      block_padding get put
  create_dir_entry fuel dir_inode file_inode type name = do
    assert (leb (length name) 255)
    s ← state
    let header = entry_bytes file_inode 0 type name
    let size = get Inode.size dir_inode
    content ← read_file drive fuel dir_inode 0 size
    let first : Place = record { dir_file_offset = 0; entry_offset = none; new_offset = size }
    place ←
        (if length content.1 == 0
          then pure first
          else lift (place_loop fuel s.block_size (length header) size content.1 first))
    if place.dir_file_offset == size
        then append_entry content.0 (size + block_padding s.block_size size)
            (put Entry.size (s.block_size % 2 ^ 16) header)
        else split_entry content.0 header content.1 place
