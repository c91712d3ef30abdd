-- ===== src/Threading/Descriptors.antt =====
-- The tables of open files and file descriptors of a process, kernel/threading/scheduler.cpp.
use influx.Base.{ℕ, Bool, Option, none, some, set, get_elem?, ◌==◌, if◌then◌else◌}
use influx.Base.Run.{Run, ok, fault, missing_key, ◌>>=◌}
use influx.Structures.UniqueHashMap.Spec.{fill, first_free, occupied}
use influx.Vfs.Data.{Table, lookup, decrease, OpenFile}

-- `file_descriptors` holds the `open_file_index` of each. `own_keys` tells that both maps have handed out
-- all of their keys themselves; it ends with a fork and with a given number for a descriptor that is free.
pub record Files : Type 0 where
  pub open_files : Table OpenFile
  pub file_descriptors : Table ℕ
  pub own_keys : Bool

-- With other keys than its own, `insert_unique` may find its next key in use and answer -1; the model stops
-- there.
unfoldable pub add_file_descriptor : Files → OpenFile → Run (Files × ℕ)
unfolding fill first_free
add_file_descriptor f file =
    let added = record f {
      open_files = fill file f.open_files;
      file_descriptors = fill (first_free f.open_files) f.file_descriptors;
    } in
    if f.own_keys then ok (added, first_free f.file_descriptors) else fault missing_key

-- None is `invalid_file`.
unfoldable pub get_file_descriptor : Files → ℕ → Run (Option OpenFile)
unfolding lookup occupied
get_file_descriptor f fd =
    if occupied (get_elem? f.file_descriptors fd) == 0
    then ok none
    else (lookup f.file_descriptors fd >>= lookup f.open_files) >>= λ file. ok (some file)

unfoldable pub update_file_descriptor : Files → ℕ → OpenFile → Run Files
unfolding lookup
update_file_descriptor f fd file = do
  i ← lookup f.file_descriptors fd
  old ← lookup f.open_files i
  ok (record f { open_files = set f.open_files i (some file) })

-- The slot of an open file with one descriptor less: it is erased with the last one.
unfoldable pub release_slot : OpenFile → Option OpenFile
unfolding decrease
release_slot file =
    let left = decrease file.amount_of_file_descriptors in
    if left == 0 then none else some (record file { amount_of_file_descriptors = left })

unfoldable pub release : Files → ℕ → OpenFile → Files
unfolding release_slot
release f i file = record f { open_files = set f.open_files i (release_slot file) }

unfoldable pub remove_file_descriptor : Files → ℕ → Run Files
unfolding lookup release
remove_file_descriptor f fd = do
  i ← lookup f.file_descriptors fd
  file ← lookup f.open_files i
  ok (record (release f i file) { file_descriptors = set f.file_descriptors fd none })
