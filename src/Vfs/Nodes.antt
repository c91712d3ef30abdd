-- ===== src/Vfs/Nodes.antt =====
-- The vnodes of kernel/vfs/vfs.cpp and how files find them. The mutexes are held by the only caller.
use influx.Base.{
  ℕ, ◌%◌, suc, Bool, true, false, not, ◌&&◌, List, [], ◌∷◌, ◌++◌, Option, none, some, length, set,
  ltb, ◌==◌, if◌then◌else◌,
}
use influx.Base.Run.{Run, ok, fault, use_after_free, ◌>>=◌}
use influx.Structures.HashMap.{default_bucket_count}
use influx.Structures.UniqueHashMap.Spec.{fill, first_free}
use influx.Threading.Descriptors.{Files}
use influx.Vfs.Path.{FilePath, is_parent, equals}
use influx.Vfs.Data.{Table, lookup, decrease, FileInfo, OpenFile, Vnode, Mount, FileSystems}

-- The object `vfs`, the descriptors of the current process and the state of the file systems.
pub record Vfs (W D : Type 0) : Type 0 where
  pub world : W
  pub mounts : List Mount
  pub vnodes : Table (Vnode D)
  pub deleted_vnodes_paths : List (ℕ × FilePath)
  pub files : Files

-- The loop of `get_fs_for_file`, from the best match so far.
unfoldable pub best_mount : FilePath → Option Mount → List Mount → Option Mount
unfolding is_parent
best_mount path best [] = best
best_mount path none (m ∷ mounts) = best_mount path (some m) mounts
best_mount path (some best) (m ∷ mounts) =
    let deeper = ltb (length best.mount_path.branches) (length m.mount_path.branches) in
    best_mount path (some (if is_parent m.mount_path path && deeper then m else best)) mounts

unfoldable pub get_fs_for_file : List Mount → FilePath → Option ℕ
unfolding best_mount
get_fs_for_file mounts path = elim (best_mount path none mounts) [
  | none ↦ none
  | some m ↦ some m.fs
]

-- The loop of `mount` over what is mounted.
unfoldable pub is_mounted : FilePath → List Mount → Bool
unfolding equals
is_mounted path [] = false
is_mounted path (m ∷ mounts) = if equals m.mount_path path then true else is_mounted path mounts

-- `_deleted_vnodes_paths` is a map of 16 buckets, whose `erase` leaves a deleted node linked in a bucket
-- of two. Here each bucket has one path at most, and the model stops where a second one would join it.
unfoldable pub is_bucket_free : ℕ → List (ℕ × FilePath) → Bool
is_bucket_free v [] = true
is_bucket_free v ((u, path) ∷ paths) =
    if u % default_bucket_count == v % default_bucket_count then false else is_bucket_free v paths

unfoldable pub put_path : ℕ → FilePath → List (ℕ × FilePath) → Run (List (ℕ × FilePath))
unfolding is_bucket_free
put_path v path paths =
    if is_bucket_free v paths then ok ((v, path) ∷ paths) else fault use_after_free

unfoldable pub path_of : ℕ → List (ℕ × FilePath) → Option FilePath
path_of v [] = none
path_of v ((u, path) ∷ paths) = if u == v then some path else path_of v paths

unfoldable pub erase_path : ℕ → List (ℕ × FilePath) → List (ℕ × FilePath)
erase_path v [] = []
erase_path v ((u, path) ∷ paths) = if u == v then paths else (u, path) ∷ erase_path v paths

-- `_deleted_vnodes_paths.count(v) == 1`, which misses a path that equals the empty one.
unfoldable pub path_recorded : FilePath → Bool
unfolding equals
path_recorded path = not (equals path (record { branches = [] }))

module _ {W D : Type 0} (systems : FileSystems W D) where
  -- The file system of type ext2 is built by `create`, and `mount_fs` is its `mount`.
  unfoldable pub mount :
      (W → W × ℕ) → (ℕ → FilePath → W → W × Bool) → Vfs W D → Bool → FilePath → Vfs W D × Bool
  unfolding is_mounted
  mount create mount_fs s is_ext2 path =
      let (created, fs) = create s.world in
      let (mounted, done) = mount_fs fs path created in
      let m : Mount = record { fs = fs; mount_path = path } in
      if is_mounted path s.mounts
      then (s, false)
      else if not is_ext2
      then (s, false)
      else if not done
      then (record s { world = mounted }, false)
      else (record s { world = mounted; mounts = s.mounts ++ m ∷ [] }, true)

  unfoldable pub is_vnode_of : ℕ → D → Vnode D → Bool
  is_vnode_of fs fs_data vn = vn.fs == fs && systems.compare_fs_file_data fs fs_data vn.fs_data

  -- The loop of `get_vnode_for_file`, from slot `i` on.
  unfoldable pub find_vnode : ℕ → D → ℕ → Table (Vnode D) → Option ℕ
  unfolding is_vnode_of
  find_vnode fs fs_data i [] = none
  find_vnode fs fs_data i (none ∷ slots) = find_vnode fs fs_data (suc i) slots
  find_vnode fs fs_data i (some vn ∷ slots) =
      if is_vnode_of fs fs_data vn then some i else find_vnode fs fs_data (suc i) slots

  unfoldable pub get_vnode_for_file : Vfs W D → ℕ → D → Option ℕ
  unfolding find_vnode
  get_vnode_for_file s fs fs_data = find_vnode fs fs_data 0 s.vnodes

  unfoldable pub create_vnode_for_file : Vfs W D → ℕ → D → FileInfo → Vfs W D × ℕ
  unfolding fill first_free
  create_vnode_for_file s fs fs_data file =
      let vn : Vnode D = record {
        file = file;
        fs = fs;
        deleted = false;
        amount_of_open_files = 0;
        fs_data = fs_data;
      } in
      (record s { vnodes = fill vn s.vnodes }, first_free s.vnodes)

  -- The unlinking that was asked for while the file was open: the file systems and the paths behind it.
  unfoldable pub unlink_deleted : Vfs W D → ℕ → Vnode D → W × List (ℕ × FilePath)
  unfolding path_recorded path_of erase_path
  unlink_deleted s v vn = elim (path_of v s.deleted_vnodes_paths) [
    | none ↦ (s.world, s.deleted_vnodes_paths)
    | some path ↦
        if vn.deleted && path_recorded path
        then ((systems.unlink_file vn.fs path s.world).0, erase_path v s.deleted_vnodes_paths)
        else (s.world, s.deleted_vnodes_paths)
  ]

  -- A vnode without open files is erased.
  unfoldable pub drop_vnode : Vfs W D → ℕ → Vnode D → Vfs W D
  unfolding unlink_deleted
  drop_vnode s v vn =
      let (world, paths) = unlink_deleted s v vn in
      record s { world = world; vnodes = set s.vnodes v none; deleted_vnodes_paths = paths }

  -- With one open file less.
  unfoldable pub leave_vnode : Vfs W D → ℕ → Vnode D → Vfs W D
  unfolding decrease drop_vnode
  leave_vnode s v vn =
      let left = decrease vn.amount_of_open_files in
      if left == 0
      then drop_vnode s v vn
      else record s { vnodes = set s.vnodes v (some (record vn { amount_of_open_files = left })) }

  unfoldable pub close_open_file : Vfs W D → OpenFile → Run (Vfs W D)
  unfolding lookup leave_vnode
  close_open_file s file = do
    let v = file.vnode_index
    vn ← lookup s.vnodes v
    let world = systems.close_open_file vn.fs file vn.fs_data s.world
    ok (leave_vnode (record s { world = world }) v vn)
