-- ===== src/Vfs/Closing.antt =====
-- `close` of kernel/vfs/vfs.cpp in a valid state.
use influx.Base.{
  ℕ, ◌%◌, ◌&&◌, Option-cases, [], ◌∷◌, zero, suc, ◌+◌, ◌<◌, ◌≡◌, ◌≢◌, refl, sym, true, false,
  Bool-cases, List, Option, none, some, set, get_elem?, ◌==◌, ==_iff, if◌then◌else◌, arith, inl,
  inr,
}
use influx.Base.Run.{ok}
use influx.Structures.UniqueHashMap.References.{kept}
use influx.Structures.UniqueHashMap.Balance.{
  Balanced, Balanced-remove, Balanced-same, Positive, PositiveBut, Positive-set, Positive-clear,
  Positive-but,
}
use influx.Threading.Descriptors.{Files, remove_file_descriptor, release, release_slot}
use influx.Vfs.Data.{failed, value, invalid_file, decrease, OpenFile, Vnode, FileSystems}
use influx.Vfs.Nodes.{
  path_of, path_recorded, erase_path, is_bucket_free, unlink_deleted, Vfs, drop_vnode, leave_vnode,
  close_open_file,
}
use influx.Vfs.Path.{FilePath}
use influx.Vfs.Calls.{close}
use influx.Vfs.Validity.{
  Apart, IsValid, Keeps, Opened, index, none_other, get_file_descriptor_cases, lookup_lem,
}
use native.Mathlib.Decide.{ℕ_discrete}

decrease_lem : (n : ℕ) → 0 < n → decrease n + 1 ≡ n
unfolding decrease
decrease_lem zero h = absurd (omega arith)
decrease_lem (suc n) h = omega arith

-- A slot that is erased when its count comes to 0.
module _ {B : Type 0} (amount : B → ℕ) where
  abbrev left_slot : ℕ → B → Option B
  left_slot n b = if n == 0 then none else some b

  kept-left_slot : (n : ℕ) (b : B) → amount b ≡ n → kept amount (some (left_slot n b)) ≡ n
  unfolding kept
  kept-left_slot n b e = elim (Bool-cases (n == 0)) [
    | inl none_left ↦ rw none_left (sym ((==_iff n 0).0 none_left))
    | inr some_left ↦ rw some_left e
  ]

  left_slot-Positive :
      (bs : List (Option B)) (i n : ℕ) (b : B) (old : Option B)
      → PositiveBut amount i bs
      → get_elem? bs i ≡ some old
      → amount b ≡ n
      → Positive amount (set bs i (left_slot n b))
  left_slot-Positive bs i n b old p h e = elim (Bool-cases (n == 0)) [
    | inl none_left ↦ rw none_left (Positive-clear amount bs i old p h)
    | inr some_left ↦
        let pos : 0 < n = ground arith in
        rw some_left (Positive-set amount bs i b old p h (omega (arith, e)))
  ]

erase_path-is_free :
    (v u : ℕ) (paths : List (ℕ × FilePath))
    → is_bucket_free u paths ≡ true
    → is_bucket_free u (erase_path v paths) ≡ true
unfolding is_bucket_free erase_path
erase_path-is_free v u [] h = refl
erase_path-is_free v u ((k, path) ∷ paths) h = elim (Bool-cases (k % 16 == u % 16)) [
  | inl same ↦ let no : false ≡ true = rw same at h in cc
  | inr differ ↦
      let rest : is_bucket_free u paths ≡ true = rw differ at h in
      elim (Bool-cases (k == v)) [
        | inl here ↦ rw here rest
        | inr other ↦ rw other (rw differ (erase_path-is_free v u paths rest))
      ]
]

erase_path-Apart : (v : ℕ) (paths : List (ℕ × FilePath)) → Apart paths → Apart (erase_path v paths)
unfolding erase_path
erase_path-Apart v [] h = tt
erase_path-Apart v ((k, path) ∷ paths) h = elim (Bool-cases (k == v)) [
  | inl here ↦ rw here (h.1)
  | inr other ↦ rw other (erase_path-is_free v k paths h.0, erase_path-Apart v paths h.1)
]

module _ {W D : Type 0} (systems : FileSystems W D) (others : ℕ → ℕ) where
  unlink_deleted-Apart :
      (s : Vfs W D) (v : ℕ) (vn : Vnode D)
      → Apart s.deleted_vnodes_paths
      → Apart (unlink_deleted systems s v vn).1
  unfolding unlink_deleted
  unlink_deleted-Apart s v vn apart = elim (Option-cases (path_of v s.deleted_vnodes_paths)) [
    | inl no_path ↦ rw (unlink_deleted, no_path) apart
    | inr (path, found) ↦ elim (Bool-cases (vn.deleted && path_recorded path)) [
      | inl gone ↦
          rw (unlink_deleted, found) (rw gone (erase_path-Apart v s.deleted_vnodes_paths apart))
      | inr kept_path ↦ rw (unlink_deleted, found) (rw kept_path apart)
    ]
  ]

  -- What closing an open file does to the vnodes.
  leave_vnode_lem :
      (s : Vfs W D) (v : ℕ) (vn : Vnode D)
      → ((leave_vnode systems s v vn).files ≡ s.files)
        × ((leave_vnode systems s v vn).vnodes
            ≡ set s.vnodes v (
                left_slot Vnode.amount_of_open_files
                  (decrease vn.amount_of_open_files)
                  (record vn { amount_of_open_files = decrease vn.amount_of_open_files })))
  unfolding leave_vnode drop_vnode
  leave_vnode_lem s v vn = elim (Bool-cases (decrease vn.amount_of_open_files == 0)) [
    | inl last ↦ (rw (leave_vnode, last) refl, rw (leave_vnode, last) refl)
    | inr more ↦ (rw (leave_vnode, more) refl, rw (leave_vnode, more) refl)
  ]

  leave_vnode-Apart :
      (s : Vfs W D) (v : ℕ) (vn : Vnode D)
      → Apart s.deleted_vnodes_paths
      → Apart (leave_vnode systems s v vn).deleted_vnodes_paths
  unfolding leave_vnode drop_vnode
  leave_vnode-Apart s v vn apart = elim (Bool-cases (decrease vn.amount_of_open_files == 0)) [
    | inr more ↦ rw (leave_vnode, more) apart
    | inl last ↦ rw (leave_vnode, last) (unlink_deleted-Apart s v vn apart)
  ]

  remove_file_descriptor_lem :
      (s : Vfs W D) (fd : ℕ) (o : Opened s fd)
      → remove_file_descriptor s.files fd
        ≡ ok (record (s.files) {
          open_files = set s.files.open_files o.i (release_slot o.file);
          file_descriptors = set s.files.file_descriptors fd none;
        })
  unfolding remove_file_descriptor release
  remove_file_descriptor_lem s fd o =
      rw (lookup_lem s.files.file_descriptors fd o.i o.named)
        (rw (lookup_lem s.files.open_files o.i o.file o.opened) refl)

  -- The descriptor goes, and the open file counts one less.
  descriptors-removed :
      (s : Vfs W D) (fd : ℕ) (o : Opened s fd)
      → IsValid others s
      → Balanced index OpenFile.amount_of_file_descriptors none_other
          (set s.files.file_descriptors fd none)
          (set s.files.open_files o.i (release_slot o.file))
        × Positive OpenFile.amount_of_file_descriptors
            (set s.files.open_files o.i (release_slot o.file))
  unfolding release_slot
  descriptors-removed s fd o v =
      let n = decrease o.file.amount_of_file_descriptors in
      let less : OpenFile = record (o.file) { amount_of_file_descriptors = n } in
      let some_left = v.shared.positive o.i o.file o.opened in
      (
        Balanced-remove index _ _ _ _ fd o.i o.file _ v.descriptors o.named o.opened (
            omega (
              arith,
              kept-left_slot OpenFile.amount_of_file_descriptors n less refl,
              decrease_lem o.file.amount_of_file_descriptors some_left,
            )),
        left_slot-Positive OpenFile.amount_of_file_descriptors _ o.i n less (some o.file)
            (Positive-but _ _ o.i v.shared) o.opened refl,
      )

  -- The last descriptor of an open file takes it along.
  close_last-Keeps :
      (s : Vfs W D) (fd : ℕ) (o : Opened s fd)
      → IsValid others s
      → o.file.amount_of_file_descriptors ≡ 1
      → Keeps others (close systems s fd)
  unfolding close
  close_last-Keeps s fd o v one =
      let world = systems.close_open_file o.vn.fs o.file o.vn.fs_data s.world in
      let s' : Vfs W D = leave_vnode systems (record s { world = world }) o.file.vnode_index o.vn in
      let (same, vnodes) = leave_vnode_lem (record s { world = world }) o.file.vnode_index o.vn in
      let erased : release_slot o.file ≡ none = rw (release_slot, one) refl in
      let files : Files = record (s.files) {
        open_files = set s.files.open_files o.i none;
        file_descriptors = set s.files.file_descriptors fd none;
      } in
      let (d, p) = descriptors-removed s fd o v in
      let one_test : (o.file.amount_of_file_descriptors == 1) ≡ true =
        (==_iff o.file.amount_of_file_descriptors 1).1 one in
      let closed : close_open_file systems s o.file ≡ ok s' =
        rw (close_open_file, lookup_lem s.vnodes o.file.vnode_index o.vn o.backed) refl in
      let removed : remove_file_descriptor s'.files fd ≡ ok files =
        rw same (rw erased at (remove_file_descriptor_lem s fd o)) in
      let n = decrease o.vn.amount_of_open_files in
      let less : Vnode D = record (o.vn) { amount_of_open_files = n } in
      let some_left = v.held.positive o.file.vnode_index o.vn o.backed in
      (
        record s' { files = files },
        value 0,
        rw o.found (rw one_test (rw closed (rw removed refl))),
        record {
          descriptors = rw erased at d;
          shared = rw erased at p;
          references = rw vnodes (
              Balanced-remove OpenFile.vnode_index _ _ _ _ o.i o.file o.vn _ v.references o.opened
                o.backed
                (omega (
                  arith,
                  kept-left_slot Vnode.amount_of_open_files n less refl,
                  decrease_lem o.vn.amount_of_open_files some_left,
                )));
          held = rw vnodes (
              left_slot-Positive Vnode.amount_of_open_files _ o.file.vnode_index n less (some o.vn)
                (Positive-but _ _ o.file.vnode_index v.held) o.backed refl);
          own = v.own;
          apart = leave_vnode-Apart (record s { world = world }) o.file.vnode_index o.vn v.apart;
        },
      )

  -- One of several descriptors goes alone.
  close_shared-Keeps :
      (s : Vfs W D) (fd : ℕ) (o : Opened s fd)
      → IsValid others s
      → o.file.amount_of_file_descriptors ≢ 1
      → Keeps others (close systems s fd)
  unfolding close
  close_shared-Keeps s fd o v many =
      let n = decrease o.file.amount_of_file_descriptors in
      let less : OpenFile = record (o.file) { amount_of_file_descriptors = n } in
      let some_left = v.shared.positive o.i o.file o.opened in
      let n_pos : (n == 0) ≡ false =
        ground (arith, decrease_lem o.file.amount_of_file_descriptors some_left) in
      let kept_slot : release_slot o.file ≡ some less = rw (release_slot, n_pos) refl in
      let many_test : (o.file.amount_of_file_descriptors == 1) ≡ false = ground arith in
      let files : Files = record (s.files) {
        open_files = set s.files.open_files o.i (some less);
        file_descriptors = set s.files.file_descriptors fd none;
      } in
      let (d, p) = descriptors-removed s fd o v in
      let removed : remove_file_descriptor s.files fd ≡ ok files =
        rw kept_slot at (remove_file_descriptor_lem s fd o) in
      (
        record s { files = files },
        value 0,
        rw o.found (rw many_test (rw removed refl)),
        record {
          descriptors = rw kept_slot at d;
          shared = rw kept_slot at p;
          references =
              Balanced-same OpenFile.vnode_index _ _ _ _ o.i o.file less v.references o.opened refl;
          held = v.held;
          own = v.own;
          apart = v.apart;
        },
      )

  pub close-Keeps : (s : Vfs W D) (fd : ℕ) → IsValid others s → Keeps others (close systems s fd)
  unfolding close
  close-Keeps s fd v = elim (get_file_descriptor_cases others s fd v) [
    | inl free ↦ (s, failed invalid_file, rw free refl, v)
    | inr o ↦ elim (ℕ_discrete o.file.amount_of_file_descriptors 1) [
      | yes one ↦ close_last-Keeps s fd o v one
      | no many ↦ close_shared-Keeps s fd o v many
    ]
  ]
