-- ===== src/Vfs/Duplicate.antt =====
-- `dup` without a new number, kernel/threading/scheduler.cpp and kernel/syscalls/dup.cpp, in a valid state.
use influx.Base.{ℕ, ◌+◌, refl, none, some, set, arith, inl, inr}
use influx.Structures.UniqueHashMap.Spec.{fill, first_free}
use influx.Structures.UniqueHashMap.Balance.{
  Balanced-add, Balanced-same, Positive-set, Positive-but,
}
use influx.Vfs.Data.{OpenFile, FileSystems}
use influx.Vfs.Nodes.{Vfs}
use influx.Vfs.Names.{duplicate_file_descriptor, dup, same_number}
use influx.Vfs.Validity.{IsValid, Keeps, Opened, index, get_file_descriptor_cases, lookup_lem}

module _ {W D : Type 0} (systems : FileSystems W D) (others : ℕ → ℕ) where
  duplicate_file_descriptor-Keeps :
      (s : Vfs W D) (fd : ℕ)
      → Opened s fd
      → IsValid others s
      → Keeps others (duplicate_file_descriptor systems s fd none)
  unfolding duplicate_file_descriptor
  duplicate_file_descriptor-Keeps s fd o v =
      let more : OpenFile = record (o.file) {
        amount_of_file_descriptors = o.file.amount_of_file_descriptors + 1;
      } in
      (
        record s {
          world = systems.duplicate_open_file o.vn.fs o.file o.vn.fs_data s.world;
          files = record (s.files) {
            open_files = set s.files.open_files o.i (some more);
            file_descriptors = fill o.i s.files.file_descriptors;
          };
        },
        first_free s.files.file_descriptors,
        rw (lookup_lem s.files.file_descriptors fd o.i o.named) (
            rw (lookup_lem s.files.open_files o.i o.file o.opened)
              (rw (lookup_lem s.vnodes o.file.vnode_index o.vn o.backed) (rw v.own refl))),
        record {
          descriptors = Balanced-add index _ _ _ _ o.i o.file more v.descriptors o.opened refl;
          shared =
              Positive-set _ _ o.i more (some o.file) (Positive-but _ _ o.i v.shared) o.opened
                (omega arith);
          references =
              Balanced-same OpenFile.vnode_index _ _ _ _ o.i o.file more v.references o.opened refl;
          held = v.held;
          own = v.own;
          apart = v.apart;
        },
      )

  pub dup-Keeps : (s : Vfs W D) (fd : ℕ) → IsValid others s → Keeps others (dup systems s fd none)
  unfolding dup same_number
  dup-Keeps s fd v = elim (get_file_descriptor_cases others s fd v) [
    | inl free ↦ (s, none, rw free refl, v)
    | inr o ↦
        let (s', n, run, v') = duplicate_file_descriptor-Keeps s fd o v in
        (s', some n, rw o.found (rw run refl), v')
  ]
