-- ===== src/Vfs/Calls.antt =====
-- `open` and `close` of kernel/vfs/vfs.cpp.
use influx.Base.{
  ℕ, ◌+◌, ◌⊎◌, inl, inr, Bool, not, ◌&&◌, ◌||◌, Option, none, some, set, ◌==◌, if◌then◌else◌,
}
use influx.Base.Run.{Run, ok, ◌>>=◌}
use influx.Threading.Descriptors.{add_file_descriptor, get_file_descriptor, remove_file_descriptor}
use influx.Vfs.Path.{FilePath}
use influx.Vfs.Data.{
  lookup, Error, file_is_directory, file_is_not_directory, invalid_file, file_not_found,
  insufficient_permissions, invalid_flags, Reply, failed, value, FilePermissions, FileInfo,
  OpenFlags, FileSystems, is_directory, is_regular,
}
use influx.Vfs.Nodes.{
  Vfs, get_fs_for_file, get_vnode_for_file, create_vnode_for_file, close_open_file,
}

-- The tests of `open` on its flags alone.
unfoldable pub check_flags : OpenFlags → Option Error
check_flags flags =
    if (not flags.read && not flags.write) || (flags.directory && flags.create)
    then some invalid_flags
    else if flags.directory && flags.write
    then some file_is_directory
    else none

-- Those on the permissions and the type of the file.
unfoldable pub check_access : OpenFlags → FileInfo → Option Error
unfolding is_directory is_regular
check_access flags file =
    if (flags.read && not file.permissions.read)
      || ((flags.write || flags.append) && not file.permissions.write)
    then some insufficient_permissions
    else if is_regular file.type && flags.directory
    then some file_is_not_directory
    else if is_directory file.type && flags.write
    then some file_is_directory
    else none

module _ {W D : Type 0} (systems : FileSystems W D) where
  -- The data on the file, which is created if it is missing and `create` is set.
  unfoldable pub locate_file :
      Vfs W D → ℕ → FilePath → Bool → FilePermissions → Vfs W D × (Error ⊎ D)
  locate_file s fs path create permissions = elim (systems.get_fs_file_data fs path s.world) [
    | some fs_data ↦ (s, inr fs_data)
    | none ↦
        let (created, err, fs_data) = systems.create_file fs path permissions s.world in
        let s' = record s { world = created } in
        if create
        then elim err [ none ↦ (s', inr fs_data) | some e ↦ (s', inl e) ]
        else (s, inl file_not_found)
  ]

  -- The rest of `open` once the vnode in slot `v` is there.
  unfoldable pub open_vnode : Vfs W D → OpenFlags → ℕ → Run (Vfs W D × Reply)
  unfolding lookup add_file_descriptor
  open_vnode s flags v = do
    vn ← lookup s.vnodes v
    let more = record vn { amount_of_open_files = vn.amount_of_open_files + 1 }
    let added =
        add_file_descriptor s.files
          (record { vnode_index = v; position = 0; flags = flags; amount_of_file_descriptors = 1 })
    if vn.deleted
        then ok (s, failed file_not_found)
        else added
          >>= (λ r. ok (record s { vnodes = set s.vnodes v (some more); files = r.0 }, value r.1))

  -- The vnode of a file, which is made if it is missing.
  unfoldable pub open_file_of : Vfs W D → OpenFlags → ℕ → D → FileInfo → Run (Vfs W D × Reply)
  unfolding get_vnode_for_file create_vnode_for_file open_vnode
  open_file_of s flags fs fs_data file = elim (get_vnode_for_file systems s fs fs_data) [
    | some v ↦ open_vnode s flags v
    | none ↦ let (s', v) = create_vnode_for_file systems s fs fs_data file in open_vnode s' flags v
  ]

  -- `open` from the file information on.
  unfoldable pub open_located : FileInfo → Vfs W D → OpenFlags → ℕ → D → Run (Vfs W D × Reply)
  unfolding check_access open_file_of
  open_located blank s flags fs fs_data =
      let (bad, file) = systems.get_file_info fs fs_data blank s.world in
      elim bad [
        | some e ↦ ok (s, failed e)
        | none ↦ elim (check_access flags file) [
          | some e ↦ ok (s, failed e)
          | none ↦ open_file_of s flags fs fs_data file
        ]
      ]

  -- `open` of a path. `blank` is the file information before the file system writes it.
  unfoldable pub open_path :
      FileInfo → Vfs W D → FilePath → OpenFlags → FilePermissions → Run (Vfs W D × Reply)
  unfolding check_flags get_fs_for_file locate_file open_located
  open_path blank s path flags permissions = elim (check_flags flags) [
    | some e ↦ ok (s, failed e)
    | none ↦ elim (get_fs_for_file s.mounts path) [
      | none ↦ ok (s, failed file_not_found)
      | some fs ↦
          let (s', located) = locate_file s fs path flags.create permissions in
          elim located [
            | inl e ↦ ok (s', failed e)
            | inr fs_data ↦ open_located blank s' flags fs fs_data
          ]
    ]
  ]

  unfoldable pub close : Vfs W D → ℕ → Run (Vfs W D × Reply)
  unfolding get_file_descriptor close_open_file remove_file_descriptor
  close s fd = do
    found ← get_file_descriptor s.files fd
    elim found [
      | none ↦ ok (s, failed invalid_file)
      | some file ↦ do
        s' ← if file.amount_of_file_descriptors == 1 then close_open_file systems s file else ok s
        files ← remove_file_descriptor s'.files fd
        ok (record s' { files = files }, value 0)
    ]
