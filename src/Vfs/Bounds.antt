-- ===== src/Vfs/Bounds.antt =====
-- What `read` and `seek` of kernel/vfs/vfs.cpp may do with the position.
use influx.Base.{
  ℕ, ◌+◌, ◌≤◌, ◌≡◌, refl, sym, ◌∙◌, max, [], Option, none, some, Option-cases, length, arith, inl,
  inr,
}
use influx.Base.Run.{Run, ok, fault, ◌>>=◌}
use influx.Vfs.Path.{Text}
use influx.Vfs.Data.{Error, Reply, failed, value, invalid_file, reply, OpenFile, Vnode, FileSystems}
use influx.Vfs.Nodes.{Vfs}
use influx.Vfs.Transfer.{with_file, read, read_file, read_amount, check_read, advance}
use mathlib.Core.Path.{subst}
use influx.Threading.Descriptors.{Files}
use influx.Vfs.Validity.{Opened, lookup_lem}

read_amount-le :
    (count position size : ℕ)
    → (read_amount count position size ≤ count)
      × (position + read_amount count position size ≤ max position size)
unfolding read_amount
read_amount-le count position size = ground arith

-- A file system reads at most what it is asked for.
pub record ReadsWithin {W D : Type 0} (systems : FileSystems W D) : Type 0 where
  pub within :
      (fs : ℕ) (fs_data : D) (count position : ℕ) (w : W)
      → length (systems.read fs fs_data count position w).2 ≤ count

-- If a read answers a number, it is that of the bytes read, no more than asked for, and those bytes end
-- within the file if they begin there.
abbrev Bounded : {W D : Type 0} → ℕ → ℕ → ℕ → Run (Vfs W D × (Reply × Text)) → Type 0
Bounded count position size (ok (s, (value n, text))) =
    (n ≡ length text) × (n ≤ count) × (position + n ≤ max position size)
Bounded count position size (ok (s, (failed e, text))) = 0 ≤ count
Bounded count position size (fault f) = 0 ≤ count

module _ {W D : Type 0} (systems : FileSystems W D) where
  replied-Bounded :
      (count position size : ℕ) (bad : Option Error) (text : Text) (moved : Run Files)
      (state : Files → Vfs W D)
      → length text ≤ count
      → position + length text ≤ max position size
      → Bounded count position size (
          ◌>>=◌ {A = Files} {B = Vfs W D × Reply} moved
            (λ files. ok (state files, reply bad (length text)))
          >>= λ r. ok (r.0, (r.1, text)))
  unfolding reply
  replied-Bounded count position size none text (ok files) state p q = (refl, p, q)
  replied-Bounded count position size (some e) text (ok files) state p q = omega arith
  replied-Bounded count position size none text (fault f) state p q = omega arith
  replied-Bounded count position size (some e) text (fault f) state p q = omega arith

  read_file-Bounded :
      (s : Vfs W D) (fd count : ℕ) (file : OpenFile) (vn : Vnode D)
      → ReadsWithin systems
      → Bounded count file.position vn.file.size (read_file systems s fd count file vn)
  unfolding read_file advance
  read_file-Bounded s fd count file vn law =
      let asked = read_amount count file.position vn.file.size in
      let got = systems.read vn.fs vn.fs_data asked file.position s.world in
      let (le, fits) = read_amount-le count file.position vn.file.size in
      let short = law.within vn.fs vn.fs_data asked file.position s.world in
      elim (Option-cases got.1) [
        | inr (e, bad) ↦ rw (read_file, bad) (omega arith)
        | inl good ↦
            rw (read_file, good)
              (replied-Bounded count file.position vn.file.size _ got.2 _ _ (omega arith)
                (omega arith))
      ]

  with_file_lem :
      {R : Type 0} (s : Vfs W D) (fd : ℕ) (o : Opened s fd) (invalid : R)
      (call : OpenFile → Vnode D → Run (Vfs W D × R))
      → with_file s fd invalid call ≡ call o.file o.vn
  unfolding with_file
  with_file_lem s fd o invalid call =
      rw o.found (rw (lookup_lem s.vnodes o.file.vnode_index o.vn o.backed) refl)

  checked-Bounded :
      (count position size : ℕ) (s : Vfs W D) (test : Option Error)
      (call : Run (Vfs W D × (Reply × Text)))
      → Bounded count position size call
      → Bounded count position size (elim test [ some e ↦ ok (s, (failed e, [])) | none ↦ call ])
  checked-Bounded count position size s none call h = h
  checked-Bounded count position size s (some e) call h = omega arith

  -- For file systems that read at most what they are asked for: a `read` of an open file that answers
  -- a number answers that of the bytes read, which is at most the number asked for, and the position
  -- plus that number is at most the larger of the position and the size of the file.
  pub read-bounds :
      (s s' : Vfs W D) (fd count n : ℕ) (text : Text) (o : Opened s fd)
      → ReadsWithin systems
      → read systems s fd count ≡ ok (s', (value n, text))
      → (n ≡ length text) × (n ≤ count) × (o.file.position + n ≤ max o.file.position o.vn.file.size)
  unfolding read
  read-bounds s s' fd count n text o law run =
      let test = check_read o.file o.vn.file in
      let bounded =
        checked-Bounded count o.file.position o.vn.file.size s test _
          (read_file-Bounded s fd count o.file o.vn law) in
      subst (λ r. Bounded count o.file.position o.vn.file.size r)
        (sym (with_file_lem s fd o (failed invalid_file, []) _) ∙ run) bounded
