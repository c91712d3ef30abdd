-- ===== src/Fs/Ext2/Directories.antt =====
-- Directories of kernel/fs/ext2/ext2.cpp: `read_dir`, `find_inode`, `create_dir_entry` and
-- `remove_dir_entry`.
use influx.Base.{
  ℕ, zero, suc, ◌+◌, ◌-◌, Bool, true, not, ◌&&◌, List, [], ◌∷◌, ◌++◌, Option, none, some, length,
  drop, ltb, leb, ◌==◌, if◌then◌else◌,
}
use influx.Base.Run.{Run, ok, fault, out_of_bounds, out_of_fuel}
use influx.Fs.Memory.{Memory, get, load}
use influx.Fs.Ext2.Inode
use influx.Fs.Ext2.Entry
use influx.Fs.Ext2.Device.{Drive, Fs, pure, ◌>>=◌, ◌>>◌, lift, stop, assert, get_inode}
use influx.Fs.Ext2.Files.{read_file}
use influx.Fs.Ext2.Types.{has_directory_bit, entry_file_type, file_type_for_inode}
use influx.Vfs.Path.{Text, FilePath, text_eq}
use influx.Vfs.Data.{FileType, unknown, DirEntry}

-- The entry at an offset of the buffer, with what stands behind it.
unfoldable pub entry_at : Memory → ℕ → Run Memory
entry_at buf offset =
    if leb (offset + Entry.size_of) (length buf) then ok (drop offset buf) else fault out_of_bounds

-- Its `name_len` bytes.
unfoldable pub entry_name : Memory → Run Text
unfolding get load
entry_name e =
    let n = get Entry.name_len e in
    if leb (Entry.size_of + n) (length e) then ok (load Entry.size_of n e) else fault out_of_bounds

-- `dirent_size_for_dir_entry` of the VFS, for a `dirent` of 24 bytes.
unfoldable pub dirent_size : DirEntry → ℕ
dirent_size e = 24 + length e.name + 1

-- Whether this much is below the size of the caller's buffer; none is a size below 0.
unfoldable pub has_room : (ℕ → ℕ → Bool) → ℕ → Option ℕ → Bool
has_room test usage none = true
has_room test usage (some size) = test usage size

-- The entries of `read_dir`, the number of bytes they take, and the usage of the caller's buffer.
pub record Listing : Type 0 where
  pub entries : List DirEntry
  pub amount_read : ℕ
  pub usage : ℕ

unfoldable pub add_entry : DirEntry → ℕ → Option ℕ → Listing → Listing
unfolding dirent_size has_room
add_entry e size room l =
    let usage = l.usage + dirent_size e in
    if has_room leb usage room
    then record {
      entries = l.entries ++ (e ∷ []);
      amount_read = l.amount_read + size;
      usage = usage;
    }
    else record l { usage = usage }

module _ {W : Type 0} (drive : Drive W) where
  unfoldable pub file_type_for_dir_entry : Memory → Fs W FileType
  unfolding get_inode entry_file_type file_type_for_inode get
  file_type_for_dir_entry e =
      if get Entry.type e == 0
      then (get_inode drive (get Entry.inode e) >>= λ inode.
          pure (elim inode [ none ↦ unknown | some i ↦ file_type_for_inode i ]))
      else pure (entry_file_type (get Entry.type e))

  -- One round of the loop of `read_dir` at an entry.
  unfoldable pub list_entry : Memory → Option ℕ → Listing → Fs W Listing
  unfolding lift file_type_for_dir_entry entry_name add_entry get
  list_entry e room l = if get Entry.inode e == 0 then pure l else do
    type ← file_type_for_dir_entry e
    name ← lift (entry_name e)
    let found : DirEntry = record { inode = get Entry.inode e; type = type; name = name }
    pure (add_entry found (get Entry.size e) room l)

  unfoldable pub list_loop : ℕ → Memory → Option ℕ → ℕ → Listing → Fs W Listing
  unfolding lift stop entry_at list_entry has_room get
  list_loop zero buf room buf_offset l = stop out_of_fuel
  list_loop (suc fuel) buf room buf_offset l =
      if not (ltb buf_offset (length buf) && has_room ltb l.usage room) then pure l else do
        e ← lift (entry_at buf buf_offset)
        l' ← list_entry e room l
        list_loop fuel buf room (buf_offset + get Entry.size e) l'

  -- With the inode as the read of the directory leaves it.
  unfoldable pub read_dir : ℕ → Memory → ℕ → Option ℕ → Fs W (Memory × Listing)
  unfolding assert has_directory_bit read_file list_loop get
  read_dir fuel dir_inode offset room = do
    assert (has_directory_bit dir_inode)
    assert (ltb offset (get Inode.size dir_inode))
    content ← read_file drive fuel dir_inode offset (get Inode.size dir_inode - offset)
    listing ← list_loop fuel content.1 room 0 (record { entries = []; amount_read = 0; usage = 0 })
    pure (content.0, listing)

  -- The loop of `find_inode` over the entries: none if no name is the branch.
  unfoldable pub find_name : Text → List DirEntry → Option ℕ
  unfolding text_eq
  find_name branch [] = none
  find_name branch (e ∷ entries) =
      let rest = find_name branch entries in if text_eq e.name branch then some e.inode else rest

  -- One branch of the path from an inode on, which is 0 before the root; the answer is 0 for a failure.
  unfoldable pub find_in : ℕ → Text → ℕ → Fs W ℕ
  unfolding get_inode read_dir find_name text_eq has_directory_bit
  find_in fuel branch inode =
      if inode == 0
      then pure (if text_eq branch [] then 2 else 0)
      else get_inode drive inode >>= λ found. elim found [
        | none ↦ pure 0
        | some inode_obj ↦
            if not (has_directory_bit inode_obj)
            then pure 0
            else read_dir fuel inode_obj 0 none >>= λ listing.
                elim (find_name branch listing.1.entries) [
                  | none ↦ pure 0
                  | some next ↦ pure (if next == inode then 0 else next)
                ]
      ]

  unfoldable pub find_branches : ℕ → List Text → ℕ → Fs W ℕ
  unfolding find_in
  find_branches fuel [] inode = pure inode
  find_branches fuel (branch ∷ branches) inode = find_in fuel branch inode >>= λ next.
      let rest = find_branches fuel branches next in if next == 0 then pure 0 else rest

  unfoldable pub find_inode : ℕ → FilePath → Fs W ℕ
  unfolding find_branches
  find_inode fuel path = find_branches fuel path.branches 0
