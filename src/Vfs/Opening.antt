-- ===== src/Vfs/Opening.antt =====
-- `open` and `close` of kernel/vfs/vfs.cpp in a valid state.
use influx.Base.{
  ℕ, ◌+◌, ◌≡◌, refl, Bool, true, false, Bool-cases, some, set, get_elem?, arith, ◌⊎◌, inl, inr,
  Option-cases,
}
use influx.Base.Run.{ok}
use influx.Structures.UniqueHashMap.Spec.{fill, first_free}
use influx.Structures.UniqueHashMap.References.{get_elem?-fill_self}
use influx.Structures.UniqueHashMap.Balance.{
  Balanced, Balanced-new, Balanced-add, Balanced-fill, Positive, PositiveBut, Positive-set,
  Positive-but, Positive-fill, PositiveBut-fill,
}
use influx.Threading.Descriptors.{add_file_descriptor}
use influx.Vfs.Path.{FilePath}
use influx.Vfs.Data.{
  Error, failed, value, file_not_found, FilePermissions, FileInfo, OpenFlags, OpenFile, Vnode,
  FileSystems,
}
use influx.Vfs.Nodes.{Vfs, get_fs_for_file, create_vnode_for_file}
use influx.Vfs.Calls.{
  check_flags, check_access, locate_file, open_vnode, open_file_of, open_located, open_path,
}
use influx.Vfs.Validity.{Apart, IsValid, Keeps, index, none_other, lookup_lem}
use influx.Vfs.Found.{get_vnode_for_file_cases}
use influx.Vfs.Preserved.{with_world}

module _ {W D : Type 0} (systems : FileSystems W D) (others : ℕ → ℕ) where
  -- One more open file, with its first descriptor.
  opened-IsValid :
      (s : Vfs W D) (k : ℕ) (vn : Vnode D) (flags : OpenFlags)
      → Balanced index OpenFile.amount_of_file_descriptors none_other s.files.file_descriptors
          s.files.open_files
      → Positive OpenFile.amount_of_file_descriptors s.files.open_files
      → Balanced OpenFile.vnode_index Vnode.amount_of_open_files others s.files.open_files s.vnodes
      → PositiveBut Vnode.amount_of_open_files k s.vnodes
      → get_elem? s.vnodes k ≡ some (some vn)
      → vn.deleted ≡ false
      → s.files.own_keys ≡ true
      → Apart s.deleted_vnodes_paths
      → Keeps others (open_vnode systems s flags k)
  unfolding open_vnode add_file_descriptor
  opened-IsValid s k vn flags d p r h e alive own apart =
      let file : OpenFile = record {
        vnode_index = k;
        position = 0;
        flags = flags;
        amount_of_file_descriptors = 1;
      } in
      let more : Vnode D = record vn { amount_of_open_files = vn.amount_of_open_files + 1 } in
      (
        record s {
          vnodes = set s.vnodes k (some more);
          files = record (s.files) {
            open_files = fill file s.files.open_files;
            file_descriptors = fill (first_free s.files.open_files) s.files.file_descriptors;
          };
        },
        value (first_free s.files.file_descriptors),
        rw (lookup_lem s.vnodes k vn e) (rw alive (rw own refl)),
        record {
          descriptors = Balanced-new index _ _ _ _ (first_free s.files.open_files) file d refl refl;
          shared = Positive-fill _ _ file p (omega arith);
          references = Balanced-add OpenFile.vnode_index _ _ _ _ file vn more r e refl;
          held = Positive-set _ _ k more (some vn) h e (omega arith);
          own = own;
          apart = apart;
        },
      )

  open_vnode-Keeps :
      (s : Vfs W D) (k : ℕ) (vn : Vnode D) (flags : OpenFlags)
      → IsValid others s
      → get_elem? s.vnodes k ≡ some (some vn)
      → Keeps others (open_vnode systems s flags k)
  unfolding open_vnode
  open_vnode-Keeps s k vn flags v e = elim (Bool-cases vn.deleted) [
    | inl gone ↦ (s, failed file_not_found, rw (lookup_lem s.vnodes k vn e) (rw gone refl), v)
    | inr alive ↦
        opened-IsValid s k vn flags v.descriptors v.shared v.references (Positive-but _ _ k v.held)
          e alive v.own v.apart
  ]

  open_file_of-Keeps :
      (s : Vfs W D) (flags : OpenFlags) (fs : ℕ) (fs_data : D) (file : FileInfo)
      → IsValid others s
      → Keeps others (open_file_of systems s flags fs fs_data file)
  unfolding create_vnode_for_file open_file_of
  open_file_of-Keeps s flags fs fs_data file v =
      elim (get_vnode_for_file_cases systems s fs fs_data) [
        | inr (k, vn, found, e) ↦ rw (open_file_of, found) (open_vnode-Keeps s k vn flags v e)
        | inl missing ↦
            let vn : Vnode D = record {
              file = file;
              fs = fs;
              deleted = false;
              amount_of_open_files = 0;
              fs_data = fs_data;
            } in
            rw (open_file_of, missing)
              (opened-IsValid (record s { vnodes = fill vn s.vnodes }) (first_free s.vnodes) vn
                flags v.descriptors v.shared
                (Balanced-fill OpenFile.vnode_index _ _ _ _ vn v.references refl)
                (PositiveBut-fill _ _ vn v.held) (get_elem?-fill_self vn s.vnodes) refl v.own
                v.apart)
      ]

  open_located-Keeps :
      (blank : FileInfo) (s : Vfs W D) (flags : OpenFlags) (fs : ℕ) (fs_data : D)
      → IsValid others s
      → Keeps others (open_located systems blank s flags fs fs_data)
  unfolding open_located
  open_located-Keeps blank s flags fs fs_data v =
      let got = systems.get_file_info fs fs_data blank s.world in
      elim (Option-cases got.0) [
        | inr (e, bad) ↦ (s, failed e, rw (open_located, bad) refl, v)
        | inl good ↦ elim (Option-cases (check_access flags got.1)) [
          | inr (e, refused) ↦ (s, failed e, rw (open_located, good) (rw refused refl), v)
          | inl allowed ↦
              rw (open_located, good) (rw allowed (open_file_of-Keeps s flags fs fs_data got.1 v))
        ]
      ]

  locate_file-IsValid :
      (s : Vfs W D) (fs : ℕ) (path : FilePath) (create : Bool) (permissions : FilePermissions)
      → IsValid others s
      → IsValid others (locate_file systems s fs path create permissions).0
  unfolding locate_file
  locate_file-IsValid s fs path create permissions v =
      let made = systems.create_file fs path permissions s.world in
      elim (Option-cases (systems.get_fs_file_data fs path s.world)) [
        | inr (fs_data, there) ↦ rw (locate_file, there) v
        | inl missing ↦ elim (Bool-cases create) [
          | inr plain ↦ rw (locate_file, missing, plain) v
          | inl creating ↦ elim (Option-cases made.1) [
            | inl good ↦
                rw (locate_file, missing, creating, good) (with_world systems others s made.0 v)
            | inr (e, bad) ↦
                rw (locate_file, missing, creating, bad) (with_world systems others s made.0 v)
          ]
        ]
      ]

  located-Keeps :
      (blank : FileInfo) (s : Vfs W D) (flags : OpenFlags) (fs : ℕ) (located : Error ⊎ D)
      → IsValid others s
      → Keeps others (elim located [
        | inl e ↦ ok (s, failed e)
        | inr fs_data ↦ open_located systems blank s flags fs fs_data
      ])
  located-Keeps blank s flags fs (inl e) v = (s, failed e, refl, v)
  located-Keeps blank s flags fs (inr fs_data) v = open_located-Keeps blank s flags fs fs_data v

  pub open_path-Keeps :
      (blank : FileInfo) (s : Vfs W D) (path : FilePath) (flags : OpenFlags)
      (permissions : FilePermissions)
      → IsValid others s
      → Keeps others (open_path systems blank s path flags permissions)
  unfolding open_path
  open_path-Keeps blank s path flags permissions v = elim (Option-cases (check_flags flags)) [
    | inr (e, refused) ↦ (s, failed e, rw (open_path, refused) refl, v)
    | inl fine ↦ elim (Option-cases (get_fs_for_file s.mounts path)) [
      | inl no_fs ↦ (s, failed file_not_found, rw (open_path, fine) (rw no_fs refl), v)
      | inr (fs, found) ↦
          let got = locate_file systems s fs path flags.create permissions in
          rw (open_path, fine)
            (rw found (
              located-Keeps blank got.0 flags fs got.1
                (locate_file-IsValid s fs path flags.create permissions v)))
    ]
  ]
