-- ===== src/Vfs/Mounts.antt =====
-- Which file system `get_fs_for_file` of kernel/vfs/vfs.cpp finds.
use influx.Base.{
  ◌≤◌, ◌≡◌, refl, true, false, Bool-cases, List, [], ◌∷◌, some, length, leb, arith, inl, inr,
}
use influx.Vfs.Path.{Text, FilePath, starts_with, is_parent, text_eq}
use influx.Vfs.Data.{Mount}
use influx.Vfs.Nodes.{best_mount, get_fs_for_file}

-- The files of every one of these mounts are under its path: `path` is one of them, or the path itself.
pub data AllHold : FilePath → List Mount → Type 0 where
  none_left : (path : FilePath) → AllHold path []
  holds :
      (path : FilePath) (m : Mount) (mounts : List Mount)
      → starts_with m.mount_path.branches path.branches ≡ true
      → AllHold path mounts
      → AllHold path (m ∷ mounts)

starts_with-le :
    (short long : List Text) → starts_with short long ≡ true → length short ≤ length long
unfolding starts_with
starts_with-le [] long h = omega arith
starts_with-le (b ∷ short) [] h = cc
starts_with-le (b ∷ short) (c ∷ long) h = elim (Bool-cases (text_eq b c)) [
  | inl same ↦ omega (arith, starts_with-le short long (rw same at h))
  | inr differ ↦ let no : false ≡ true = rw differ at h in cc
]

-- A mount is no child of a path that is under it.
not_parent :
    (mount path : FilePath)
    → starts_with mount.branches path.branches ≡ true
    → is_parent mount path ≡ false
unfolding is_parent
not_parent mount path h =
    let shorter : leb (length mount.branches) (length path.branches) ≡ true =
      ground (arith, starts_with-le mount.branches path.branches h) in
    rw shorter refl

best_mount-first :
    (path : FilePath) (best : Mount) (mounts : List Mount)
    → AllHold path mounts
    → best_mount path (some best) mounts ≡ some best
unfolding best_mount
best_mount-first path best [] h = refl
best_mount-first path best (m ∷ mounts) (holds _ _ _ under rest) =
    rw (not_parent m.mount_path path under) (best_mount-first path best mounts rest)

-- For a path that is under the path of every mount behind the first, or equal to it, `get_fs_for_file`
-- answers the file system of the first mount.
pub get_fs_for_file-first :
    (path : FilePath) (m : Mount) (mounts : List Mount)
    → AllHold path mounts
    → get_fs_for_file (m ∷ mounts) path ≡ some m.fs
unfolding get_fs_for_file
get_fs_for_file-first path m mounts h =
    rw (get_fs_for_file, best_mount, best_mount-first path m mounts h) refl
