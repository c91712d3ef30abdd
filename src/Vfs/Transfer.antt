-- ===== src/Vfs/Transfer.antt =====
-- `seek`, `read`, `write` and `get_dir_entries` of kernel/vfs/vfs.cpp.
use influx.Base.{
  ℕ, ◌-◌, ◌^◌, min, Bool, not, List, [], Option, none, some, length, set, ltb, leb, if◌then◌else◌,
  add64,
}
use influx.Base.Run.{Run, ok, ◌>>=◌}
use influx.Threading.Descriptors.{get_file_descriptor, update_file_descriptor}
use influx.Vfs.Path.{Text}
use influx.Vfs.Data.{
  lookup, Error, file_is_directory, file_is_not_directory, invalid_file, invalid_file_access,
  invalid_position, is_pipe, Reply, failed, value, reply, FileInfo, OpenFile, DirEntry, SeekType,
  from_start, from_current, from_end, Vnode, FileSystems, is_directory, is_stream,
}
use influx.Vfs.Nodes.{Vfs}

-- The test of `seek` on where it comes to, a number of 64 bits with a sign.
unfoldable pub is_negative : ℕ → Bool
is_negative n = leb (2 ^ 63) n

unfoldable pub seek_position : SeekType → ℕ → ℕ → ℕ → ℕ
seek_position from_start position size offset = offset
seek_position from_current position size offset = add64 position offset
seek_position from_end position size offset = add64 size offset

-- What `read` asks of the file system.
unfoldable pub read_amount : ℕ → ℕ → ℕ → ℕ
read_amount count position size = min count (if ltb size position then 0 else size - position)

-- The tests of `read`, of `write` and of `get_dir_entries` on the open file.
unfoldable pub check_read : OpenFile → FileInfo → Option Error
unfolding is_directory
check_read file info =
    if is_directory info.type
    then some file_is_directory
    else if not file.flags.read
    then some invalid_file_access
    else none

unfoldable pub check_write : OpenFile → FileInfo → Option Error
unfolding is_directory
check_write file info =
    if is_directory info.type
    then some file_is_directory
    else if not file.flags.write
    then some invalid_file_access
    else none

unfoldable pub check_list : OpenFile → FileInfo → Option Error
unfolding is_directory
check_list file info =
    if not (is_directory info.type)
    then some file_is_not_directory
    else if not file.flags.read
    then some invalid_file_access
    else none

-- What the calls on descriptors begin with: the open file and its vnode, or `invalid_file`.
unfoldable pub with_file :
    {W D R : Type 0}
    → Vfs W D
    → ℕ
    → R
    → (OpenFile → Vnode D → Run (Vfs W D × R))
    → Run (Vfs W D × R)
unfolding get_file_descriptor lookup
with_file s fd invalid call = do
  found ← get_file_descriptor s.files fd
  elim found [ none ↦ ok (s, invalid) | some file ↦ lookup s.vnodes file.vnode_index >>= call file ]

module _ {W D : Type 0} (systems : FileSystems W D) where
  unfoldable pub seek_file : Vfs W D → ℕ → ℕ → SeekType → OpenFile → Vnode D → Run (Vfs W D × Reply)
  unfolding is_stream seek_position is_negative update_file_descriptor
  seek_file s fd offset type file vn =
      let position = seek_position type file.position vn.file.size offset in
      let moved = update_file_descriptor s.files fd (record file { position = position }) in
      if is_stream vn.file.type
      then ok (s, failed is_pipe)
      else if is_negative position
      then ok (s, failed invalid_position)
      else moved >>= λ files. ok (record s { files = files }, value position)

  -- `seek`. The offset is a number of 64 bits with a sign.
  unfoldable pub seek : Vfs W D → ℕ → ℕ → SeekType → Run (Vfs W D × Reply)
  unfolding with_file seek_file
  seek s fd offset type = with_file s fd (failed invalid_file) (seek_file s fd offset type)

  -- The end of `read`, `write` and `get_dir_entries`: the position, then the file information.
  unfoldable pub advance : Vfs W D → ℕ → OpenFile → Vnode D → ℕ → Run (Vfs W D × Reply)
  unfolding is_stream update_file_descriptor reply
  advance s fd file vn amount = do
    let (bad, info) = systems.get_file_info vn.fs vn.fs_data vn.file s.world
    let vnodes = set s.vnodes file.vnode_index (some (record vn { file = info }))
    let moved =
        update_file_descriptor s.files fd (record file { position = add64 file.position amount })
    files ← if is_stream vn.file.type then ok s.files else moved
    let s' = record s { files = files; vnodes = vnodes }
    ok (s', reply bad amount)

  unfoldable pub read_file : Vfs W D → ℕ → ℕ → OpenFile → Vnode D → Run (Vfs W D × (Reply × Text))
  unfolding read_amount advance
  read_file s fd count file vn =
      let asked = read_amount count file.position vn.file.size in
      let (world, bad, text) = systems.read vn.fs vn.fs_data asked file.position s.world in
      let s' = record s { world = world } in
      elim bad [
        | some e ↦ ok (s', (failed e, text))
        | none ↦ advance s' fd file vn (length text) >>= λ r. ok (r.0, (r.1, text))
      ]

  -- `read`. The buffer is the second part of the answer.
  unfoldable pub read : Vfs W D → ℕ → ℕ → Run (Vfs W D × (Reply × Text))
  unfolding with_file check_read read_file
  read s fd count =
      with_file s fd (failed invalid_file, [])
        λ file vn. elim (check_read file vn.file) [
          | some e ↦ ok (s, (failed e, []))
          | none ↦ read_file s fd count file vn
        ]

  unfoldable pub write_file : Vfs W D → ℕ → Text → OpenFile → Vnode D → Run (Vfs W D × Reply)
  unfolding advance
  write_file s fd text file vn =
      let position = if file.flags.append then vn.file.size else file.position in
      let placed = record file { position = position } in
      let (world, bad, amount) = systems.write vn.fs vn.fs_data text position s.world in
      let s' = record s { world = world } in
      elim bad [ some e ↦ ok (s', failed e) | none ↦ advance s' fd placed vn amount ]

  unfoldable pub write : Vfs W D → ℕ → Text → Run (Vfs W D × Reply)
  unfolding with_file check_write write_file
  write s fd text = with_file s fd (failed invalid_file) λ file vn.
      elim (check_write file vn.file) [
        | some e ↦ ok (s, failed e)
        | none ↦ write_file s fd text file vn
      ]

  unfoldable pub list_file :
      Vfs W D → ℕ → ℕ → OpenFile → Vnode D → Run (Vfs W D × (Reply × List DirEntry))
  unfolding advance
  list_file s fd buffer_size file vn =
      let (world, bad, entries, amount) =
        systems.read_dir_entries vn.fs vn.fs_data file.position buffer_size s.world in
      let s' = record s { world = world } in
      elim bad [
        | some e ↦ ok (s', (failed e, entries))
        | none ↦ advance s' fd file vn amount >>= λ r. ok (r.0, (r.1, entries))
      ]

  unfoldable pub get_dir_entries : Vfs W D → ℕ → ℕ → Run (Vfs W D × (Reply × List DirEntry))
  unfolding with_file check_list list_file
  get_dir_entries s fd buffer_size =
      with_file s fd (failed invalid_file, [])
        λ file vn. elim (check_list file vn.file) [
          | some e ↦ ok (s, (failed e, []))
          | none ↦ list_file s fd buffer_size file vn
        ]
