-- ===== src/Vfs/Names.antt =====
-- The calls of kernel/vfs/vfs.cpp that ask about files, and `mkdir` and `unlink`.
use influx.Base.{
  ℕ, ◌+◌, ◌⊎◌, inl, inr, Bool, true, false, [], ◌∷◌, Option, none, some, set, get_elem?, ◌==◌,
  if◌then◌else◌,
}
use influx.Base.Run.{Run, ok, fault, ◌>>=◌, missing_key}
use influx.Structures.UniqueHashMap.Spec.{fill, first_free}
use influx.Threading.Descriptors.{Files, get_file_descriptor, release}
use influx.Vfs.Path.{FilePath}
use influx.Vfs.Data.{
  Table, lookup, Error, file_is_directory, invalid_file, file_not_found, Reply, failed, value,
  reply, FilePermissions, FileInfo, OpenFile, FileSystems, is_directory,
}
use influx.Vfs.Nodes.{Vfs, get_fs_for_file, get_vnode_for_file, put_path}

-- Whether a number is given and is this one.
unfoldable pub same_number : Option ℕ → ℕ → Bool
same_number none n = false
same_number (some m) n = n == m

module _ {W D : Type 0} (systems : FileSystems W D) where
  -- The file information of a descriptor, and of a path.
  unfoldable pub stat : Vfs W D → ℕ → Run (Error ⊎ FileInfo)
  unfolding get_file_descriptor lookup
  stat s fd = do
    found ← get_file_descriptor s.files fd
    elim found [
      | none ↦ ok (inl invalid_file)
      | some file ↦ lookup s.vnodes file.vnode_index >>= λ vn. ok (inr vn.file)
    ]

  unfoldable pub stat_path : FileInfo → Vfs W D → FilePath → Error ⊎ FileInfo
  unfolding get_fs_for_file
  stat_path blank s path = elim (get_fs_for_file s.mounts path) [
    | none ↦ inl file_not_found
    | some fs ↦ elim (systems.get_fs_file_data fs path s.world) [
      | none ↦ inl file_not_found
      | some fs_data ↦
          let (bad, info) = systems.get_file_info fs fs_data blank s.world in
          elim bad [ some e ↦ inl e | none ↦ inr info ]
    ]
  ]

  unfoldable pub mkdir : Vfs W D → FilePath → FilePermissions → Vfs W D × Reply
  unfolding get_fs_for_file reply
  mkdir s path permissions = elim (get_fs_for_file s.mounts path) [
    | none ↦ (s, failed file_not_found)
    | some fs ↦
        let (world, bad) = systems.create_dir fs path permissions s.world in
        (record s { world = world }, reply bad 0)
  ]

  -- `unlink` of a file whose vnode is in slot `v`.
  unfoldable pub unlink_open : Vfs W D → FilePath → ℕ → Run (Vfs W D × Reply)
  unfolding lookup is_directory put_path
  unlink_open s path v = do
    vn ← lookup s.vnodes v
    let marked = put_path v path s.deleted_vnodes_paths >>= λ paths. ok (
      record s {
        vnodes = set s.vnodes v (some (record vn { deleted = true }));
        deleted_vnodes_paths = paths;
      },
      value 0,
    )
    if is_directory vn.file.type
        then ok (s, failed file_is_directory)
        else if vn.deleted
        then ok (s, failed file_not_found)
        else marked

  unfoldable pub unlink : Vfs W D → FilePath → Run (Vfs W D × Reply)
  unfolding get_fs_for_file get_vnode_for_file unlink_open reply
  unlink s path = elim (get_fs_for_file s.mounts path) [
    | none ↦ ok (s, failed file_not_found)
    | some fs ↦ elim (systems.get_fs_file_data fs path s.world) [
      | none ↦ ok (s, failed file_not_found)
      | some fs_data ↦ elim (get_vnode_for_file systems s fs fs_data) [
        | some v ↦ unlink_open s path v
        | none ↦
            let (world, bad) = systems.unlink_file fs path s.world in
            let s' = record s { world = world } in ok (s', reply bad 0)
      ]
    ]
  ]

  -- None is a null pointer.
  unfoldable pub get_filesystem : Vfs W D → ℕ → Run (Option ℕ)
  unfolding get_file_descriptor lookup
  get_filesystem s fd = do
    found ← get_file_descriptor s.files fd
    elim found [
      | none ↦ ok none
      | some file ↦ lookup s.vnodes file.vnode_index >>= λ vn. ok (some vn.fs)
    ]

  -- None is -1.
  unfoldable pub get_vnode_index : Vfs W D → ℕ → Run (Option ℕ)
  unfolding get_file_descriptor
  get_vnode_index s fd = get_file_descriptor s.files fd >>= λ found.
      ok (elim found [ none ↦ none | some file ↦ some file.vnode_index ])

  -- `fork_file_descriptors` of a table of open files.
  unfoldable pub fork_file_descriptors : Table OpenFile → Vfs W D → Run (Vfs W D)
  unfolding lookup
  fork_file_descriptors [] s = ok s
  fork_file_descriptors (none ∷ slots) s = fork_file_descriptors slots s
  fork_file_descriptors (some file ∷ slots) s = do
    let v = file.vnode_index
    vn ← lookup s.vnodes v
    let more = record vn { amount_of_open_files = vn.amount_of_open_files + 1 }
    fork_file_descriptors slots (record s { vnodes = set s.vnodes v (some more) })

  -- What `duplicate_file_descriptor` of kernel/threading/scheduler.cpp does with a given number. One behind
  -- the table would be a key that the map did not choose; the model stops there.
  unfoldable pub redirect : Files → ℕ → ℕ → Run Files
  unfolding lookup release
  redirect f newfd i = elim (get_elem? f.file_descriptors newfd) [
    | none ↦ fault missing_key
    | some none ↦
        ok (record f { file_descriptors = set f.file_descriptors newfd (some i); own_keys = false })
    | some (some j) ↦ do
      old ← lookup f.open_files j
      ok (record (release f j old) { file_descriptors = set f.file_descriptors newfd (some i) })
  ]

  -- `duplicate_file_descriptor`; no `newfd` is -1.
  unfoldable pub duplicate_file_descriptor : Vfs W D → ℕ → Option ℕ → Run (Vfs W D × ℕ)
  unfolding lookup fill first_free redirect
  duplicate_file_descriptor s oldfd newfd = do
    i ← lookup s.files.file_descriptors oldfd
    file ← lookup s.files.open_files i
    vn ← lookup s.vnodes file.vnode_index
    let more = record file { amount_of_file_descriptors = file.amount_of_file_descriptors + 1 }
    let world = systems.duplicate_open_file vn.fs file vn.fs_data s.world
    let files = record (s.files) { open_files = set s.files.open_files i (some more) }
    let s' = record s { world = world }
    elim newfd [
      | none ↦
          let added : Vfs W D × ℕ = (
            record s' { files = record files { file_descriptors = fill i files.file_descriptors } },
            first_free files.file_descriptors,
          ) in
          if files.own_keys then ok added else fault missing_key
      | some n ↦ redirect files n i >>= λ files'. ok (record s' { files = files' }, n)
    ]

  -- `dup` of kernel/syscalls/dup.cpp; none is -EBADF.
  unfoldable pub dup : Vfs W D → ℕ → Option ℕ → Run (Vfs W D × Option ℕ)
  unfolding same_number get_file_descriptor duplicate_file_descriptor
  dup s oldfd newfd =
      if same_number newfd oldfd
      then ok (s, newfd)
      else get_file_descriptor s.files oldfd >>= λ found. elim found [
        | none ↦ ok (s, none)
        | some file ↦ duplicate_file_descriptor s oldfd newfd >>= λ r. ok (r.0, some r.1)
      ]
