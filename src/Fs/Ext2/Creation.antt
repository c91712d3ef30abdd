-- ===== src/Fs/Ext2/Creation.antt =====
-- The calls of kernel/fs/ext2/ext2.cpp that create and unlink files.
use influx.Base.{ℕ, Bool, not, ◌||◌, ◌⊎◌, inl, inr, Option, none, some, ◌==◌, if◌then◌else◌}
use influx.Fs.Memory.{Memory, get, put}
use influx.Fs.Ext2.Inode
use influx.Fs.Ext2.Device.{
  Drive, Fs, pure, ◌>>=◌, ◌>>◌, timestamp, get_inode, save_inode, new_buffer, sub16,
}
use influx.Fs.Ext2.Allocation.{alloc_inode}
use influx.Fs.Ext2.Release.{free_inode}
use influx.Fs.Ext2.Types.{
  has_directory_bit, is_writable, ext2_file_types_permissions, ext2_dir_entry_type_for_file_type,
}
use influx.Fs.Ext2.Directories.{read_dir, find_inode}
use influx.Fs.Ext2.Entries.{create_dir_entry}
use influx.Fs.Ext2.Removal.{remove_dir_entry}
use influx.Fs.Ext2.Calls.{is_taken}
use influx.Vfs.Path.{FilePath, parent_path, base_name, dot, dot_dot}
use influx.Vfs.Data.{
  Error, io_error, file_is_directory, file_not_found, file_already_exists, quota_exhausted,
  insufficient_permissions, FileType, regular, directory, FilePermissions,
}

module _ {W : Type 0} (drive : Drive W) where
  -- The members of a new inode.
  unfoldable pub new_inode : FileType → FilePermissions → ℕ → ℕ → Memory
  unfolding ext2_file_types_permissions put
  new_inode type permissions created accessed = put Inode.hard_links_count 1 (
      put Inode.last_access_time accessed (
        put Inode.last_modification_time created (
          put Inode.creation_time created (
            put Inode.types_permissions (ext2_file_types_permissions type permissions)
              (new_buffer Inode.size_of)))))

  unfoldable pub create_inode : FileType → FilePermissions → Fs W ℕ
  unfolding alloc_inode free_inode timestamp save_inode new_inode
  create_inode type permissions = do
    inode ← alloc_inode drive
    if inode == 0 then pure 0 else do
      created ← timestamp drive
      accessed ← timestamp drive
      saved ← save_inode drive inode (new_inode type permissions created accessed)
      if saved then pure inode else free_inode drive inode >> pure 0

  -- What `create_file` and `create_dir` check of the directory the path is in: its number and inode.
  unfoldable pub open_parent : ℕ → FilePath → Fs W (Error ⊎ (ℕ × Memory))
  unfolding find_inode get_inode is_writable has_directory_bit read_dir is_taken parent_path
      base_name
  open_parent fuel path = find_inode drive fuel (parent_path path) >>= λ dir_inode.
      if dir_inode == 0
      then pure (inl file_not_found)
      else get_inode drive dir_inode >>= λ found. elim found [
        | none ↦ pure (inl io_error)
        | some i ↦
            if not (is_writable i)
            then pure (inl insufficient_permissions)
            else if not (has_directory_bit i)
            then pure (inl file_not_found)
            else read_dir drive fuel i 0 none >>= λ listing.
                if is_taken (base_name path) listing.1.entries
                then pure (inl file_already_exists)
                else pure (inr (dir_inode, listing.0))
      ]

  -- The new inode and its entry in the directory, whose own inode is not saved.
  unfoldable pub create_in : ℕ → FilePath → FileType → FilePermissions → Memory → Fs W (Error ⊎ ℕ)
  unfolding create_inode create_dir_entry free_inode base_name ext2_dir_entry_type_for_file_type
  create_in fuel path type permissions dir_inode_obj = create_inode type permissions >>= λ inode.
      if inode == 0 then pure (inl quota_exhausted) else do
        made ←
            create_dir_entry drive fuel dir_inode_obj inode (ext2_dir_entry_type_for_file_type type)
              (base_name path)
        elim made.1 [ none ↦ pure (inr inode) | some e ↦ free_inode drive inode >> pure (inl e) ]

  -- The number of the new inode, or the error.
  unfoldable pub create_file : ℕ → FilePath → FilePermissions → Fs W (Error ⊎ ℕ)
  unfolding open_parent create_in
  create_file fuel path permissions = open_parent fuel path >>= λ parent. elim parent [
    | inl e ↦ pure (inl e)
    | inr (dir_inode, dir_inode_obj) ↦ create_in fuel path regular permissions dir_inode_obj
  ]

  -- The entries of a new directory for itself and for its parent; the inode is saved at the end.
  unfoldable pub fill_directory : ℕ → ℕ → ℕ → Memory → Fs W (Error ⊎ ℕ)
  unfolding create_dir_entry free_inode save_inode
  fill_directory fuel inode dir_inode inode_obj = do
    this ← create_dir_entry drive fuel inode_obj inode 2 dot
    elim this.1 [
      | some e ↦ free_inode drive inode >> pure (inl e)
      | none ↦ create_dir_entry drive fuel this.0 dir_inode 2 dot_dot >>= λ above. elim above.1 [
        | some e ↦ free_inode drive inode >> pure (inl e)
        | none ↦ save_inode drive inode above.0 >>= λ saved.
            pure (if saved then inr inode else inl io_error)
      ]
    ]

  unfoldable pub create_dir : ℕ → FilePath → FilePermissions → Fs W (Error ⊎ ℕ)
  unfolding open_parent create_in get_inode fill_directory
  create_dir fuel path permissions = open_parent fuel path >>= λ parent. elim parent [
    | inl e ↦ pure (inl e)
    | inr (dir_inode, dir_inode_obj) ↦
        create_in fuel path directory permissions dir_inode_obj >>= λ made. elim made [
          | inl e ↦ pure (inl e)
          | inr inode ↦ get_inode drive inode >>= λ found. elim found [
            | none ↦ pure (inl io_error)
            | some inode_obj ↦ fill_directory fuel inode dir_inode inode_obj
          ]
        ]
  ]

  -- The inode without the link that is removed.
  unfoldable pub drop_link : ℕ → Memory → Fs W Bool
  unfolding free_inode save_inode get put
  drop_link inode inode_obj =
      let links = sub16 (get Inode.hard_links_count inode_obj) 1 in
      if links == 0
      then free_inode drive inode
      else save_inode drive inode (put Inode.hard_links_count links inode_obj)

  unfoldable pub unlink_file : ℕ → FilePath → Fs W (Option Error)
  unfolding find_inode get_inode is_writable has_directory_bit remove_dir_entry drop_link
      parent_path base_name
  unlink_file fuel path = do
    inode ← find_inode drive fuel path
    parent_inode ← find_inode drive fuel (parent_path path)
    if inode == 0 || parent_inode == 0
        then pure (some file_not_found)
        else get_inode drive inode >>= λ found. elim found [
          | none ↦ pure (some io_error)
          | some i ↦
              if not (is_writable i)
              then pure (some insufficient_permissions)
              else if has_directory_bit i
              then pure (some file_is_directory)
              else remove_dir_entry drive fuel parent_inode (base_name path) >>= λ removed.
                  if removed
                  then (drop_link inode i >>= λ done. pure (if done then none else some io_error))
                  else pure (some io_error)
        ]
