-- ===== src/Vfs/Errors.antt =====
-- What an `open` of kernel/vfs/vfs.cpp that fails leaves behind.
use influx.Base.{
  ℕ, ◌≡◌, refl, Bool, true, false, Bool-cases, some, Option-cases, ◌⊎◌, inl, inr, get_elem?,
}
use influx.Base.Run.{Run, ok, fault, ◌>>=◌}
use influx.Structures.UniqueHashMap.Spec.{fill, first_free}
use influx.Structures.UniqueHashMap.References.{get_elem?-fill_self}
use influx.Vfs.Path.{FilePath}
use influx.Vfs.Data.{
  Error, Reply, failed, value, FilePermissions, FileInfo, OpenFlags, Vnode, FileSystems,
}
use influx.Vfs.Nodes.{Vfs, get_fs_for_file, create_vnode_for_file}
use influx.Vfs.Calls.{
  check_flags, check_access, locate_file, open_vnode, open_file_of, open_located, open_path,
}
use influx.Vfs.Validity.{lookup_lem}
use influx.Vfs.Found.{get_vnode_for_file_cases}
use mathlib.Core.Path.{subst}

-- The tables of vnodes, of paths to unlink, of open files and of descriptors are as before.
pub record Same {W D : Type 0} (s s' : Vfs W D) : Type 0 where
  pub vnodes : s'.vnodes ≡ s.vnodes
  pub deleted_vnodes_paths : s'.deleted_vnodes_paths ≡ s.deleted_vnodes_paths
  pub files : s'.files ≡ s.files

same : {W D : Type 0} (s : Vfs W D) → Same s s
same s = record { vnodes = refl; deleted_vnodes_paths = refl; files = refl }

-- If a run answers an error, the tables are as before.
abbrev FailsClean : {W D : Type 0} → Vfs W D → Run (Vfs W D × Reply) → Type 0
FailsClean s (ok (s', failed e)) = Same s s'
FailsClean s (ok (s', value n)) = Same s s
FailsClean s (fault f) = Same s s

-- A run that answers a value, if it ends.
value-FailsClean :
    {W D A : Type 0} (s : Vfs W D) (run : Run A) (next : A → Vfs W D) (n : A → ℕ)
    → FailsClean s (run >>= λ a. ok (next a, value (n a)))
value-FailsClean s (ok a) next n = same s
value-FailsClean s (fault f) next n = same s

module _ {W D : Type 0} (systems : FileSystems W D) where
  -- A vnode that is found.
  open_vnode-FailsClean :
      (s : Vfs W D) (k : ℕ) (vn : Vnode D) (flags : OpenFlags)
      → get_elem? s.vnodes k ≡ some (some vn)
      → FailsClean s (open_vnode systems s flags k)
  unfolding open_vnode
  open_vnode-FailsClean s k vn flags h = elim (Bool-cases vn.deleted) [
    | inl gone ↦ rw (open_vnode, lookup_lem s.vnodes k vn h) (rw gone (same s))
    | inr alive ↦ rw (open_vnode, lookup_lem s.vnodes k vn h) (rw alive (value-FailsClean s _ _ _))
  ]

  -- A vnode that is made, whose file gets a descriptor.
  open_made-FailsClean :
      (s t : Vfs W D) (k : ℕ) (vn : Vnode D) (flags : OpenFlags)
      → get_elem? t.vnodes k ≡ some (some vn)
      → vn.deleted ≡ false
      → FailsClean s (open_vnode systems t flags k)
  unfolding open_vnode
  open_made-FailsClean s t k vn flags h alive =
      rw (open_vnode, lookup_lem t.vnodes k vn h) (rw alive (value-FailsClean s _ _ _))

  open_file_of-FailsClean :
      (s : Vfs W D) (flags : OpenFlags) (fs : ℕ) (fs_data : D) (file : FileInfo)
      → FailsClean s (open_file_of systems s flags fs fs_data file)
  unfolding create_vnode_for_file open_file_of
  open_file_of-FailsClean s flags fs fs_data file =
      elim (get_vnode_for_file_cases systems s fs fs_data) [
        | inr (k, vn, found, e) ↦ rw (open_file_of, found) (open_vnode-FailsClean s k vn flags e)
        | inl missing ↦
            let vn : Vnode D = record {
              file = file;
              fs = fs;
              deleted = false;
              amount_of_open_files = 0;
              fs_data = fs_data;
            } in
            rw (open_file_of, missing)
              (open_made-FailsClean s (record s { vnodes = fill vn s.vnodes }) (first_free s.vnodes)
                vn flags (get_elem?-fill_self vn s.vnodes) refl)
      ]

  open_located-FailsClean :
      (blank : FileInfo) (s : Vfs W D) (flags : OpenFlags) (fs : ℕ) (fs_data : D)
      → FailsClean s (open_located systems blank s flags fs fs_data)
  unfolding open_located
  open_located-FailsClean blank s flags fs fs_data =
      let got = systems.get_file_info fs fs_data blank s.world in
      elim (Option-cases got.0) [
        | inr (e, bad) ↦ rw (open_located, bad) (same s)
        | inl good ↦ elim (Option-cases (check_access flags got.1)) [
          | inr (e, refused) ↦ rw (open_located, good) (rw refused (same s))
          | inl allowed ↦
              rw (open_located, good)
                (rw allowed (open_file_of-FailsClean s flags fs fs_data got.1))
        ]
      ]

  located-FailsClean :
      (blank : FileInfo) (s : Vfs W D) (flags : OpenFlags) (fs : ℕ) (located : Error ⊎ D)
      → FailsClean s (elim located [
        | inl e ↦ ok (s, failed e)
        | inr fs_data ↦ open_located systems blank s flags fs fs_data
      ])
  located-FailsClean blank s flags fs (inl e) = same s
  located-FailsClean blank s flags fs (inr fs_data) =
      open_located-FailsClean blank s flags fs fs_data

  -- Only the state of the file systems tells two states apart.
  with_world-FailsClean :
      (s : Vfs W D) (w : W) (run : Run (Vfs W D × Reply))
      → FailsClean (record s { world = w }) run
      → FailsClean s run
  with_world-FailsClean s w (ok (s', failed e)) h = record {
    vnodes = h.vnodes;
    deleted_vnodes_paths = h.deleted_vnodes_paths;
    files = h.files;
  }
  with_world-FailsClean s w (ok (s', value n)) h = same s
  with_world-FailsClean s w (fault f) h = same s

  locate_file_cases :
      (s : Vfs W D) (fs : ℕ) (path : FilePath) (create : Bool) (permissions : FilePermissions)
      → (w : W) × ((locate_file systems s fs path create permissions).0 ≡ record s { world = w })
  unfolding locate_file
  locate_file_cases s fs path create permissions =
      let made = systems.create_file fs path permissions s.world in
      elim (Option-cases (systems.get_fs_file_data fs path s.world)) [
        | inr (fs_data, there) ↦ (s.world, rw (locate_file, there) refl)
        | inl missing ↦ elim (Bool-cases create) [
          | inr plain ↦ (s.world, rw (locate_file, missing, plain) refl)
          | inl creating ↦ elim (Option-cases made.1) [
            | inl good ↦ (made.0, rw (locate_file, missing, creating, good) refl)
            | inr (e, bad) ↦ (made.0, rw (locate_file, missing, creating, bad) refl)
          ]
        ]
      ]

  open_path-FailsClean :
      (blank : FileInfo) (s : Vfs W D) (path : FilePath) (flags : OpenFlags)
      (permissions : FilePermissions)
      → FailsClean s (open_path systems blank s path flags permissions)
  unfolding open_path
  open_path-FailsClean blank s path flags permissions = elim (Option-cases (check_flags flags)) [
    | inr (e, refused) ↦ rw (open_path, refused) (same s)
    | inl fine ↦ elim (Option-cases (get_fs_for_file s.mounts path)) [
      | inl no_fs ↦ rw (open_path, fine) (rw no_fs (same s))
      | inr (fs, found) ↦
          let got = locate_file systems s fs path flags.create permissions in
          let (w, e) = locate_file_cases s fs path flags.create permissions in
          rw (open_path, fine)
            (rw found (
              with_world-FailsClean s w _ (
                subst
                  (λ t. FailsClean t (elim got.1 [
                    | inl e ↦ ok (got.0, failed e)
                    | inr fs_data ↦ open_located systems blank got.0 flags fs fs_data
                  ]))
                  e (located-FailsClean blank got.0 flags fs got.1))))
    ]
  ]

  -- For a process whose maps of descriptors have handed out all their keys themselves: an `open` that
  -- answers an error leaves the vnodes, the paths to unlink, the open files and the descriptors as
  -- they were.
  pub open_path-Same :
      (blank : FileInfo) (s s' : Vfs W D) (path : FilePath) (flags : OpenFlags)
      (permissions : FilePermissions) (e : Error)
      → s.files.own_keys ≡ true
      → open_path systems blank s path flags permissions ≡ ok (s', failed e)
      → Same s s'
  open_path-Same blank s s' path flags permissions e own run =
      subst (λ r. FailsClean s r) run (open_path-FailsClean blank s path flags permissions)
