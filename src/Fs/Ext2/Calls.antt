-- ===== src/Fs/Ext2/Calls.antt =====
-- The calls of the file system in kernel/fs/ext2/ext2.cpp. An error is none for `success`.
use influx.Base.{
  ℕ, zero, suc, ◌+◌, ◌-◌, ◌*◌, ◌^◌, Bool, false, not, ◌&&◌, ◌||◌, ◌⊎◌, inl, inr, List, [], ◌∷◌,
  ◌++◌, Option, none, some, length, take, drop, ltb, ◌==◌, if◌then◌else◌, add64,
}
use influx.Base.Run.{ok}
use influx.Fs.Memory.{Memory, get, put, store}
use influx.Fs.Ext2.Superblock
use influx.Fs.Ext2.BlockGroup
use influx.Fs.Ext2.Inode
use influx.Fs.Ext2.Device.{
  Drive, Fs, pure, ◌>>=◌, ◌>>◌, state, assert, divide, drive_read, timestamp, is_interrupted,
  save_superblock, get_inode, save_inode, new_buffer, mul32,
}
use influx.Fs.Ext2.Files.{read_file, write_file}
use influx.Fs.Ext2.Types.{file_type_for_inode, file_permissions_for_inode}
use influx.Fs.Ext2.Directories.{read_dir, find_inode}
use influx.Vfs.Path.{Text, FilePath, text_eq, to_text}
use influx.Vfs.Data.{
  Error, io_error, interrupted, invalid_file, file_is_directory, file_is_not_directory,
  buffer_too_small, FileInfo, DirEntry, is_directory,
}

-- Memory as `count` descriptors of a block group.
unfoldable pub cut_groups : ℕ → Memory → List Memory
cut_groups zero bytes = []
cut_groups (suc count) bytes =
    take BlockGroup.size_of bytes ∷ cut_groups count (drop BlockGroup.size_of bytes)

-- The number of bytes that `read` goes on with.
unfoldable pub reduced_count : ℕ → ℕ → ℕ → ℕ
reduced_count size offset count =
    if ltb size (add64 offset count) then if ltb size offset then 0 else size - offset else count

-- Whether one of the entries has the name.
unfoldable pub is_taken : Text → List DirEntry → Bool
unfolding text_eq
is_taken name [] = false
is_taken name (e ∷ entries) = text_eq e.name name || is_taken name entries

unfoldable pub set_groups : {W : Type 0} → List Memory → Fs W (Unit {0})
set_groups groups s = ok (tt, record s { block_groups = groups })

unfoldable pub set_superblock : {W : Type 0} → Memory → ℕ → Fs W (Unit {0})
set_superblock sb block_size s = ok (tt, record s { sb = sb; block_size = block_size })

module _ {W : Type 0} (drive : Drive W) where
  -- The end of `mount`.
  unfoldable pub note_mount : Text → Fs W Bool
  unfolding state timestamp set_superblock save_superblock put store
  note_mount path = do
    now ← timestamp drive
    s ← state
    let timed = put Superblock.mount_time now s.sb
    let noted = store Superblock.last_mounted_path.offset (take 64 (path ++ (0 ∷ []))) timed
    set_superblock noted s.block_size
    save_superblock drive

  unfoldable pub read_groups : Text → Fs W Bool
  unfolding state divide drive_read cut_groups set_groups note_mount get store
  read_groups path = do
    s ← state
    let per_group = get Superblock.blocks_per_group s.sb
    groups ← divide (get Superblock.blocks_count s.sb) per_group
    let number_of_groups =
        if ltb (mul32 per_group groups.0) (get Superblock.blocks_count s.sb)
        then groups.0 + 1
        else groups.0
    let size = BlockGroup.size_of * number_of_groups
    bytes ← drive_read drive (s.block_size * 1) size
    set_groups (cut_groups number_of_groups (store 0 bytes (new_buffer size)))
    if length bytes == size then note_mount path else pure false

  unfoldable pub mount : FilePath → Fs W Bool
  unfolding state drive_read set_superblock read_groups get store to_text
  mount mount_path = do
    bytes ← drive_read drive 1024 Superblock.size_of
    s ← state
    let sb = store 0 bytes s.sb
    let block_size = mul32 1024 (2 ^ get Superblock.log_block_size sb)
    if not (length bytes == Superblock.size_of) || not (get Superblock.magic sb == 0xef53)
        then set_superblock sb s.block_size >> pure false
        else set_superblock sb block_size >> read_groups (to_text mount_path)

  -- The error of a transfer that moved nothing.
  unfoldable pub transfer_error : Fs W Error
  unfolding is_interrupted
  transfer_error =
      is_interrupted drive >>= λ stopped. pure (if stopped then interrupted else io_error)

  -- The inode of an open file, with the check that `read` and `write` share.
  unfoldable pub get_file : ℕ → Fs W (Error ⊎ Memory)
  unfolding get_inode file_type_for_inode is_directory
  get_file inode = get_inode drive inode >>= λ found. elim found [
    | none ↦ pure (inl invalid_file)
    | some i ↦
        if is_directory (file_type_for_inode i) then pure (inl file_is_directory) else pure (inr i)
  ]

  unfoldable pub save_and : {A : Type 0} → ℕ → Memory → A → Fs W (Option Error × A)
  unfolding save_inode
  save_and inode inode_obj result = save_inode drive inode inode_obj >>= λ saved.
      pure (if saved then none else some io_error, result)

  unfoldable pub read : ℕ → ℕ → ℕ → ℕ → Fs W (Option Error × Text)
  unfolding get_file reduced_count read_file transfer_error save_and get
  read fuel inode count offset = get_file inode >>= λ found. elim found [
    | inl e ↦ pure (some e, [])
    | inr inode_obj ↦ do
      let count' = reduced_count (get Inode.size inode_obj) offset count
      content ← read_file drive fuel inode_obj offset count'
      if length content.1 == 0 && ltb 0 count'
          then (transfer_error >>= λ e. pure (some e, []))
          else save_and inode content.0 content.1
  ]

  unfoldable pub write : ℕ → Text → ℕ → Fs W (Option Error × ℕ)
  unfolding assert get_file write_file transfer_error save_and
  write inode bytes offset = assert (ltb 0 (length bytes)) >> get_file inode >>= λ found.
      elim found [
        | inl e ↦ pure (some e, 0)
        | inr inode_obj ↦ do
          done ← write_file drive inode_obj offset bytes
          if done.1 == 0
              then (transfer_error >>= λ e. pure (some e, 0))
              else save_and inode done.0 done.1
      ]

  unfoldable pub get_file_info : ℕ → FileInfo → Fs W (Option Error × FileInfo)
  unfolding state get_inode file_type_for_inode file_permissions_for_inode get
  get_file_info inode info = do
    found ← get_inode drive inode
    s ← state
    elim found [
      | none ↦ pure (some invalid_file, info)
      | some i ↦ pure (
        none,
        record {
          inode = inode;
          type = file_type_for_inode i;
          size = get Inode.size i;
          blocks = get Inode.disk_sectors_count i;
          permissions = file_permissions_for_inode i;
          owner_user_id = get Inode.user_id i;
          owner_group_id = get Inode.group_id i;
          fs_block_size = s.block_size;
          hard_links_count = get Inode.hard_links_count i;
          created = get Inode.creation_time i;
          modified = get Inode.last_modification_time i;
          accessed = get Inode.last_access_time i;
        },
      )
    ]

  unfoldable pub list_directory : ℕ → ℕ → Memory → ℕ → ℕ → Fs W (Option Error × List DirEntry × ℕ)
  unfolding read_dir timestamp save_and get put
  list_directory fuel inode inode_obj offset dirent_buffer_size =
      if ltb offset (get Inode.size inode_obj)
      then (read_dir drive fuel inode_obj offset (some dirent_buffer_size) >>= λ listing.
          if listing.1.amount_read == 0
          then pure (some buffer_too_small, listing.1.entries, 0)
          else save_and {A = List DirEntry × ℕ} inode listing.0
              (listing.1.entries, listing.1.amount_read)
            >>= λ r. pure (r.0, r.1.0, r.1.1))
      else timestamp drive >>= λ now.
          save_and {A = Unit {0}} inode (put Inode.last_access_time now inode_obj) tt >>= λ r.
          pure (r.0, [], 0)

  -- The buffer size is below 2 ^ 63.
  unfoldable pub read_dir_entries : ℕ → ℕ → ℕ → ℕ → Fs W (Option Error × List DirEntry × ℕ)
  unfolding get_inode file_type_for_inode is_directory list_directory
  read_dir_entries fuel inode offset dirent_buffer_size = get_inode drive inode >>= λ found.
      elim found [
        | none ↦ pure (some invalid_file, [], 0)
        | some i ↦
            if is_directory (file_type_for_inode i)
            then list_directory fuel inode i offset dirent_buffer_size
            else pure (some file_is_not_directory, [], 0)
      ]

  unfoldable pub get_fs_file_data : ℕ → FilePath → Fs W (Option ℕ)
  unfolding find_inode
  get_fs_file_data fuel path =
      find_inode drive fuel path >>= λ inode. pure (if inode == 0 then none else some inode)
