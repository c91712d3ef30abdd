-- ===== src/Vfs/Preserved.antt =====
-- `seek`, `read`, `write` and `get_dir_entries` of kernel/vfs/vfs.cpp in a valid state.
use influx.Base.{
  ℕ, ◌≡◌, refl, ap, ◌∙◌, Bool-cases, [], length, Option, none, some, set, get_elem?, if◌then◌else◌,
  arith, inl, inr, add64,
}
use influx.Base.Run.{Run, ok, ◌>>=◌}
use influx.Structures.UniqueHashMap.Balance.{Balanced-keep, Positive-set, Positive-but}
use influx.Vfs.Path.{Text}
use influx.Vfs.Data.{
  Error, Reply, failed, value, reply, invalid_file, is_pipe, invalid_position, OpenFile, Vnode,
  FileSystems, SeekType, is_stream,
}
use influx.Vfs.Nodes.{Vfs}
use influx.Vfs.Transfer.{
  with_file, seek_file, read_file, write_file, list_file, seek, advance, read, write,
  get_dir_entries, is_negative, seek_position, read_amount, check_read, check_write, check_list,
}
use influx.Vfs.Validity.{
  IsValid, Keeps, Opened, get_file_descriptor_cases, lookup_lem, moved, update_file_descriptor_lem,
}

module _ {W D : Type 0} (systems : FileSystems W D) (others : ℕ → ℕ) where
  -- The state of the file systems is free.
  pub with_world :
      (s : Vfs W D) (w : W) → IsValid others s → IsValid others (record s { world = w })
  with_world s w v = record {
    descriptors = v.descriptors;
    shared = v.shared;
    references = v.references;
    held = v.held;
    own = v.own;
    apart = v.apart;
  }

  -- And so is what a vnode says of its file.
  pub with_vnode :
      (s : Vfs W D) (k : ℕ) (old vn : Vnode D)
      → IsValid others s
      → get_elem? s.vnodes k ≡ some (some old)
      → vn.amount_of_open_files ≡ old.amount_of_open_files
      → IsValid others (record s { vnodes = set s.vnodes k (some vn) })
  with_vnode s k old vn v h e = record {
    descriptors = v.descriptors;
    shared = v.shared;
    references = Balanced-keep OpenFile.vnode_index _ _ _ _ k old vn v.references h e;
    held =
        Positive-set _ _ k vn (some old) (Positive-but _ _ k v.held) h
          (omega (arith, e, v.held.positive k old h));
    own = v.own;
    apart = v.apart;
  }

  pub with_file-Keeps :
      {R : Type 0} (s : Vfs W D) (fd : ℕ) (invalid : R)
      (call : OpenFile → Vnode D → Run (Vfs W D × R))
      → IsValid others s
      → ((o : Opened s fd) → Keeps others (call o.file o.vn))
      → Keeps others (with_file s fd invalid call)
  unfolding with_file
  with_file-Keeps s fd invalid call v keeps = elim (get_file_descriptor_cases others s fd v) [
    | inl free ↦ (s, invalid, rw free refl, v)
    | inr o ↦
        let (s', r, run, valid) = keeps o in
        (s', r, rw o.found (rw (lookup_lem s.vnodes o.file.vnode_index o.vn o.backed) run), valid)
  ]

  -- A call behind a test that may refuse.
  checked-Keeps :
      {R : Type 0} (s : Vfs W D) (refuse : Error → R) (test : Option Error)
      (call : Run (Vfs W D × R))
      → IsValid others s
      → Keeps others call
      → Keeps others (elim test [ some e ↦ ok (s, refuse e) | none ↦ call ])
  checked-Keeps s refuse none call v keeps = keeps
  checked-Keeps s refuse (some e) call v keeps = (s, refuse e, refl, v)

  pub seek-Keeps :
      (s : Vfs W D) (fd offset : ℕ) (type : SeekType)
      → IsValid others s
      → Keeps others (seek systems s fd offset type)
  unfolding seek seek_file
  seek-Keeps s fd offset type v =
      with_file-Keeps s fd (failed invalid_file) (seek_file systems s fd offset type) v λ o.
        let position = seek_position type o.file.position o.vn.file.size offset in
        let file : OpenFile = record (o.file) { position = position } in
        elim (Bool-cases (is_stream o.vn.file.type)) [
          | inl stream ↦ (s, failed is_pipe, rw stream refl, v)
          | inr stream ↦ elim (Bool-cases (is_negative position)) [
            | inl below ↦ (s, failed invalid_position, rw (stream, below) refl, v)
            | inr below ↦ (
              record s {
                files = record (s.files) { open_files = set s.files.open_files o.i (some file) };
              },
              value position,
              rw (stream, below) (rw (update_file_descriptor_lem s fd o file) refl),
              moved others s fd o file v refl refl,
            )
          ]
        ]

  advance-Keeps :
      (s : Vfs W D) (w : W) (fd amount : ℕ) (o : Opened s fd) (file : OpenFile)
      → IsValid others s
      → file.vnode_index ≡ o.file.vnode_index
      → file.amount_of_file_descriptors ≡ o.file.amount_of_file_descriptors
      → Keeps others (advance systems (record s { world = w }) fd file o.vn amount)
  unfolding advance
  advance-Keeps s w fd amount o file v e n =
      let got = systems.get_file_info o.vn.fs o.vn.fs_data o.vn.file w in
      let vn : Vnode D = record (o.vn) { file = got.1 } in
      let next : OpenFile = record file { position = add64 file.position amount } in
      let backed = ap (get_elem? s.vnodes) e ∙ o.backed in
      let there : Vfs W D = record s {
        files = record (s.files) { open_files = set s.files.open_files o.i (some next) };
      } in
      let valid = with_vnode s file.vnode_index o.vn vn v backed refl in
      let valid' =
        with_vnode there file.vnode_index o.vn vn (moved others s fd o next v e n) backed refl in
      elim (Bool-cases (is_stream o.vn.file.type)) [
        | inl stream ↦ (
          record s { world = w; vnodes = set s.vnodes file.vnode_index (some vn) },
          reply got.0 amount,
          rw stream refl,
          with_world (record s { vnodes = set s.vnodes file.vnode_index (some vn) }) w valid,
        )
        | inr stream ↦ (
          record there { world = w; vnodes = set s.vnodes file.vnode_index (some vn) },
          reply got.0 amount,
          rw stream (rw (update_file_descriptor_lem s fd o next) refl),
          with_world (record there { vnodes = set s.vnodes file.vnode_index (some vn) }) w valid',
        )
      ]

  -- What a transfer does with the answer of the file system.
  transfer-Keeps :
      {R : Type 0} (s : Vfs W D) (w : W) (bad : Option Error) (answer : Reply → R) (fd amount : ℕ)
      (o : Opened s fd) (file : OpenFile)
      → IsValid others s
      → file.vnode_index ≡ o.file.vnode_index
      → file.amount_of_file_descriptors ≡ o.file.amount_of_file_descriptors
      → Keeps others (elim bad [
        | some e ↦ ok (record s { world = w }, answer (failed e))
        | none ↦ advance systems (record s { world = w }) fd file o.vn amount >>= λ r.
            ok (r.0, answer r.1)
      ])
  transfer-Keeps s w (some e) answer fd amount o file v p q =
      (record s { world = w }, answer (failed e), refl, with_world s w v)
  transfer-Keeps s w none answer fd amount o file v p q =
      let (s₂, r, run, valid) = advance-Keeps s w fd amount o file v p q in
      (s₂, answer r, rw run refl, valid)

  pub read-Keeps :
      (s : Vfs W D) (fd count : ℕ) → IsValid others s → Keeps others (read systems s fd count)
  unfolding read read_file
  read-Keeps s fd count v = with_file-Keeps s fd _ _ v λ o.
      let asked = read_amount count o.file.position o.vn.file.size in
      let got = systems.read o.vn.fs o.vn.fs_data asked o.file.position s.world in
      checked-Keeps s (λ e. (failed e, [])) (check_read o.file o.vn.file) _ v
        (transfer-Keeps s got.0 got.1 (λ r. (r, got.2)) fd (length got.2) o o.file v refl refl)

  pub write-Keeps :
      (s : Vfs W D) (fd : ℕ) (text : Text)
      → IsValid others s
      → Keeps others (write systems s fd text)
  unfolding write write_file
  write-Keeps s fd text v = with_file-Keeps s fd _ _ v λ o.
      let position = if o.file.flags.append then o.vn.file.size else o.file.position in
      let placed : OpenFile = record (o.file) { position = position } in
      let got = systems.write o.vn.fs o.vn.fs_data text position s.world in
      checked-Keeps s failed (check_write o.file o.vn.file) _ v (
        checked-Keeps (record s { world = got.0 }) failed got.1 _ (with_world s got.0 v)
          (advance-Keeps s got.0 fd got.2 o placed v refl refl))

  pub get_dir_entries-Keeps :
      (s : Vfs W D) (fd size : ℕ)
      → IsValid others s
      → Keeps others (get_dir_entries systems s fd size)
  unfolding get_dir_entries list_file
  get_dir_entries-Keeps s fd size v = with_file-Keeps s fd _ _ v λ o.
      let got = systems.read_dir_entries o.vn.fs o.vn.fs_data o.file.position size s.world in
      checked-Keeps s (λ e. (failed e, [])) (check_list o.file o.vn.file) _ v
        (transfer-Keeps s got.0 got.1 (λ r. (r, got.2)) fd got.3 o o.file v refl refl)
