-- ===== src/Vfs/Sequence.antt =====
-- Sequences of calls of kernel/vfs/vfs.cpp on the descriptors of a process.
use influx.Base.{ℕ, ◌≡◌, refl, List, [], ◌∷◌, none}
use influx.Base.Run.{Run, ok, ◌>>=◌}
use influx.Structures.UniqueHashMap.References.{count}
use influx.Vfs.Path.{Text, FilePath}
use influx.Vfs.Data.{FilePermissions, FileInfo, OpenFlags, SeekType, FileSystems}
use influx.Vfs.Nodes.{Vfs}
use influx.Vfs.Calls.{open_path, close}
use influx.Vfs.Transfer.{seek, read, write, get_dir_entries}
use influx.Vfs.Names.{dup}
use influx.Vfs.Validity.{IsValid, Keeps}
use influx.Vfs.Preserved.{seek-Keeps, read-Keeps, write-Keeps, get_dir_entries-Keeps}
use influx.Vfs.Opening.{open_path-Keeps}
use influx.Vfs.Duplicate.{dup-Keeps}
use influx.Vfs.Closing.{close-Keeps}

-- The calls of a process. Those on a descriptor that is not in use are there as well.
pub data Call : Type 0 where
  opens : FilePath → OpenFlags → FilePermissions → Call
  closes : ℕ → Call
  seeks : ℕ → ℕ → SeekType → Call
  reads : ℕ → ℕ → Call
  writes : ℕ → Text → Call
  lists : ℕ → ℕ → Call
  dups : ℕ → Call

module _ {W D : Type 0} (systems : FileSystems W D) (blank : FileInfo) where
  unfoldable pub call : Call → Vfs W D → Run (Vfs W D)
  unfolding open_path close seek read write get_dir_entries dup
  call (opens path flags permissions) s =
      open_path systems blank s path flags permissions >>= λ r. ok r.0
  call (closes fd) s = close systems s fd >>= λ r. ok r.0
  call (seeks fd offset type) s = seek systems s fd offset type >>= λ r. ok r.0
  call (reads fd count) s = read systems s fd count >>= λ r. ok r.0
  call (writes fd text) s = write systems s fd text >>= λ r. ok r.0
  call (lists fd size) s = get_dir_entries systems s fd size >>= λ r. ok r.0
  call (dups fd) s = dup systems s fd none >>= λ r. ok r.0

  unfoldable pub call_all : List Call → Vfs W D → Run (Vfs W D)
  unfolding call
  call_all [] s = ok s
  call_all (c ∷ calls) s = call c s >>= call_all calls

  kept_state :
      {R : Type 0} (others : ℕ → ℕ) (run : Run (Vfs W D × R))
      → Keeps others run
      → (s : Vfs W D) × ((run >>= λ r. ok r.0) ≡ ok s) × IsValid others s
  kept_state others run (s, r, e, v) = (s, rw e refl, v)

  call-IsValid :
      (others : ℕ → ℕ) (c : Call) (s : Vfs W D)
      → IsValid others s
      → (s' : Vfs W D) × (call c s ≡ ok s') × IsValid others s'
  unfolding call
  call-IsValid others (opens path flags permissions) s v =
      kept_state others _ (open_path-Keeps systems others blank s path flags permissions v)
  call-IsValid others (closes fd) s v = kept_state others _ (close-Keeps systems others s fd v)
  call-IsValid others (seeks fd offset type) s v =
      kept_state others _ (seek-Keeps systems others s fd offset type v)
  call-IsValid others (reads fd count) s v =
      kept_state others _ (read-Keeps systems others s fd count v)
  call-IsValid others (writes fd text) s v =
      kept_state others _ (write-Keeps systems others s fd text v)
  call-IsValid others (lists fd size) s v =
      kept_state others _ (get_dir_entries-Keeps systems others s fd size v)
  call-IsValid others (dups fd) s v = kept_state others _ (dup-Keeps systems others s fd v)

  -- From a valid state, in which the maps of descriptors have handed out all their keys themselves and
  -- no two paths to unlink are in one bucket, any sequence of `open`, `close`, `seek`, `read`,
  -- `write`, `get_dir_entries` and `dup` without a new number, on descriptors in use or not, whatever
  -- the file systems answer, ends without a fault in a valid state: each open file counts the
  -- descriptors that name it, each vnode the open files that name it, those of the other processes
  -- included, and none of these counts is 0.
  pub call_all-IsValid :
      (others : ℕ → ℕ) (calls : List Call) (s : Vfs W D)
      → IsValid others s
      → (s' : Vfs W D) × (call_all calls s ≡ ok s') × IsValid others s'
  unfolding call_all
  call_all-IsValid others [] s v = (s, refl, v)
  call_all-IsValid others (c ∷ calls) s v =
      let (s₁, run, v₁) = call-IsValid others c s v in
      let (s₂, rest, v₂) = call_all-IsValid others calls s₁ v₁ in (s₂, rw run rest, v₂)
