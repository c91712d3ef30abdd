-- ===== src/Vfs/Validity.antt =====
-- What the calls of kernel/vfs/vfs.cpp keep true of descriptors, open files and vnodes.
use influx.Base.{
  ℕ, ◌≡◌, refl, true, List, [], ◌∷◌, Option, none, some, set, get_elem?, arith, ◌⊎◌, inl, inr,
}
use influx.Base.Run.{Run, ok}
use influx.Structures.UniqueHashMap.Spec.{occupied}
use influx.Structures.UniqueHashMap.Balance.{
  Balanced, Balanced-named, Balanced-keep, Balanced-same, Positive, Positive-set, Positive-but,
}
use influx.Threading.Descriptors.{Files, get_file_descriptor, update_file_descriptor}
use influx.Vfs.Data.{Table, lookup, OpenFile, Vnode}
use influx.Vfs.Path.{FilePath}
use influx.Vfs.Nodes.{Vfs, is_bucket_free}

abbrev pub index : ℕ → ℕ
index i = i

abbrev pub none_other : ℕ → ℕ
none_other i = 0

-- No two paths to unlink are in one bucket.
abbrev pub Apart : List (ℕ × FilePath) → Type 0
Apart [] = Unit
Apart ((v, path) ∷ paths) = (is_bucket_free v paths ≡ true) × Apart paths

-- Every open file counts the descriptors that name it, and every vnode the open files that name it and
-- those of the other processes. None of these counts is 0. The maps of descriptors have handed out their keys
-- themselves, and no two paths to unlink are in one bucket.
pub record IsValid {W D : Type 0} (others : ℕ → ℕ) (s : Vfs W D) : Type 0 where
  pub descriptors :
      Balanced index OpenFile.amount_of_file_descriptors none_other s.files.file_descriptors
        s.files.open_files
  pub shared : Positive OpenFile.amount_of_file_descriptors s.files.open_files
  pub references :
      Balanced OpenFile.vnode_index Vnode.amount_of_open_files others s.files.open_files s.vnodes
  pub held : Positive Vnode.amount_of_open_files s.vnodes
  pub own : s.files.own_keys ≡ true
  pub apart : Apart s.deleted_vnodes_paths

-- A call ends without a fault and leaves a valid state.
abbrev pub Keeps : {W D R : Type 0} → (ℕ → ℕ) → Run (Vfs W D × R) → Type 0
Keeps {W = W} {D = D} {R = R} others run =
    (s : Vfs W D) × (answer : R) × (run ≡ ok (s, answer)) × IsValid others s

pub lookup_lem :
    {V : Type 0} (slots : Table V) (k : ℕ) (v : V)
    → get_elem? slots k ≡ some (some v)
    → lookup slots k ≡ ok v
unfolding lookup
lookup_lem slots k v h = rw (lookup, h) refl

-- A descriptor in use, its open file and its vnode.
pub record Opened {W D : Type 0} (s : Vfs W D) (fd : ℕ) : Type 0 where
  pub i : ℕ
  pub file : OpenFile
  pub vn : Vnode D
  pub named : get_elem? s.files.file_descriptors fd ≡ some (some i)
  pub opened : get_elem? s.files.open_files i ≡ some (some file)
  pub backed : get_elem? s.vnodes file.vnode_index ≡ some (some vn)
  pub found : get_file_descriptor s.files fd ≡ ok (some file)

get_file_descriptor-some :
    (f : Files) (fd i : ℕ) (file : OpenFile)
    → get_elem? f.file_descriptors fd ≡ some (some i)
    → get_elem? f.open_files i ≡ some (some file)
    → get_file_descriptor f fd ≡ ok (some file)
unfolding get_file_descriptor occupied
get_file_descriptor-some f fd i file h k =
    rw h (rw (lookup_lem f.file_descriptors fd i h) (rw (lookup_lem f.open_files i file k) refl))

slot_cases :
    {V : Type 0} (s : Option (Option V)) → (occupied s ≡ 0) ⊎ ((v : V) × (s ≡ some (some v)))
unfolding occupied
slot_cases none = inl refl
slot_cases (some none) = inl refl
slot_cases (some (some v)) = inr (v, refl)

-- In a valid state a descriptor is not in use, or all that it needs is there.
pub get_file_descriptor_cases :
    {W D : Type 0} (others : ℕ → ℕ) (s : Vfs W D) (fd : ℕ)
    → IsValid others s
    → (get_file_descriptor s.files fd ≡ ok none) ⊎ Opened s fd
unfolding get_file_descriptor
get_file_descriptor_cases others s fd v =
    elim (slot_cases (get_elem? s.files.file_descriptors fd)) [
      | inl free ↦ inl (rw (get_file_descriptor, free) refl)
      | inr (i, named) ↦
          let (file, opened) = Balanced-named index _ _ _ _ fd i v.descriptors named in
          let (vn, backed) =
            Balanced-named OpenFile.vnode_index _ _ _ _ i file v.references opened in
          inr (record {
            i = i;
            file = file;
            vn = vn;
            named = named;
            opened = opened;
            backed = backed;
            found = get_file_descriptor-some s.files fd i file named opened;
          })
    ]

-- Any state that `set`s an open file to one with the same vnode and the same count.
pub moved :
    {W D : Type 0} (others : ℕ → ℕ) (s : Vfs W D) (fd : ℕ) (o : Opened s fd) (file : OpenFile)
    → IsValid others s
    → file.vnode_index ≡ o.file.vnode_index
    → file.amount_of_file_descriptors ≡ o.file.amount_of_file_descriptors
    → IsValid others (record s {
      files = record (s.files) { open_files = set s.files.open_files o.i (some file) };
    })
moved others s fd o file v e n = record {
  descriptors = Balanced-keep index _ _ _ _ o.i o.file file v.descriptors o.opened n;
  shared =
      Positive-set _ _ o.i file (some o.file) (Positive-but _ _ o.i v.shared) o.opened
        (omega (arith, n, v.shared.positive o.i o.file o.opened));
  references = Balanced-same OpenFile.vnode_index _ _ _ _ o.i o.file file v.references o.opened e;
  held = v.held;
  own = v.own;
  apart = v.apart;
}

pub update_file_descriptor_lem :
    {W D : Type 0} (s : Vfs W D) (fd : ℕ) (o : Opened s fd) (file : OpenFile)
    → update_file_descriptor s.files fd file
      ≡ ok (record (s.files) { open_files = set s.files.open_files o.i (some file) })
unfolding update_file_descriptor
update_file_descriptor_lem s fd o file =
    rw (lookup_lem s.files.file_descriptors fd o.i o.named)
      (rw (lookup_lem s.files.open_files o.i o.file o.opened) refl)
