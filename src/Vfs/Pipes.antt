-- ===== src/Vfs/Pipes.antt =====
-- Pipes of kernel/vfs/pipe_manager.cpp and kernel/vfs/pipe_filesystem.cpp over the byte ring.
pub mod Flow
use influx.Base.{
  ℕ, zero, suc, ◌+◌, ◌-◌, ◌^◌, min, Bool, true, false, not, ◌&&◌, List, [], ◌∷◌, ◌++◌, Option, none,
  some, length, take, set, get_elem?, ltb, ◌==◌, if◌then◌else◌, add64, sub64,
}
use influx.Base.Run.{Run, ok, fault, ◌>>=◌, assertion_failed, out_of_fuel}
use influx.Structures.Fifo
use influx.Structures.Fifo.{Fifo, current_size, push, pop}
use influx.Structures.UniqueHashMap.Spec.{fill, first_free, occupied}
use influx.Threading.Descriptors.{Files, add_file_descriptor}
use influx.Vfs.Path.{Text, FilePath}
use influx.Vfs.Data.{
  Table, lookup, decrease, Error, invalid_file, insufficient_permissions, file_is_not_directory,
  interrupted, pipe_closed, FileInfo, OpenFlags, OpenFile, FileSystems,
}

pub record Pipe : Type 0 where
  pub buffer : Fifo
  pub amount_of_read_file_descriptors : ℕ
  pub amount_of_write_file_descriptors : ℕ
  pub file : FileInfo

-- What a call meets: the time, and what the other threads do to the pipe until a wait ends, with whether it
-- ended without a signal.
pub record Surroundings : Type 0 where
  pub now : ℕ
  pub wait : Pipe → Pipe × Bool

-- The end of `read`, once there is something or a writer came.
unfoldable pub take_bytes : Surroundings → ℕ → Pipe → Pipe × List ℕ
unfolding pop current_size
take_bytes around count p =
    let amount = min count (current_size p.buffer) in
    let (buffer, bytes, done) = pop amount p.buffer in
    (record p { buffer = buffer; file = record (p.file) { accessed = around.now } }, bytes)

-- `read`. The amount is the number of bytes.
unfoldable pub read : Surroundings → ℕ → Pipe → Pipe × List ℕ
unfolding take_bytes current_size
read around count p =
    let (p', woken) = around.wait p in
    if not (current_size p.buffer == 0)
    then take_bytes around count p
    else if p.amount_of_write_file_descriptors == 0
    then (p, [])
    else if woken
    then take_bytes around count p'
    else (p', [])

unfoldable pub is_full : Pipe → Bool
unfolding current_size
is_full p = current_size p.buffer == p.buffer.max_size

-- One round of the loop of `write`, once there is room: the first bytes of the buffer, each time.
unfoldable pub put_bytes : List ℕ → Pipe → Pipe × ℕ
unfolding push current_size
put_bytes bytes p =
    let amount = min (length bytes) (sub64 p.buffer.max_size (current_size p.buffer)) in
    (record p { buffer = (push (take amount bytes) p.buffer).0 }, amount)

-- The loop of `write` with the amount so far; none is -1.
unfoldable pub write_loop : ℕ → Surroundings → List ℕ → ℕ → Pipe → Run (Pipe × Option ℕ)
unfolding is_full put_bytes
write_loop zero around bytes written p = fault out_of_fuel
write_loop (suc fuel) around bytes written p =
    let (p', woken) = around.wait p in
    let ready = if is_full p then p' else p in
    let (q, amount) = put_bytes bytes ready in
    let rest = write_loop fuel around bytes (add64 written amount) q in
    if not (ltb written (length bytes))
    then ok (p, some written)
    else if p.amount_of_read_file_descriptors == 0
    then ok (p, none)
    else if is_full p && not woken
    then ok (p', some written)
    else rest

-- The times of the file when a write is over.
unfoldable pub touch : Surroundings → Pipe → Pipe
touch around p = record p {
  file = record (p.file) { accessed = around.now; modified = around.now };
}

unfoldable pub written : Surroundings → Pipe × Option ℕ → Pipe × Option ℕ
unfolding touch
written around (p, none) = (p, none)
written around (p, some amount) = (touch around p, some amount)

unfoldable pub write : ℕ → Surroundings → List ℕ → Pipe → Run (Pipe × Option ℕ)
unfolding write_loop written
write fuel around bytes p =
    if p.amount_of_read_file_descriptors == 0
    then ok (p, none)
    else write_loop fuel around bytes 0 p >>= λ r. ok (written around r)

-- `_pipes`, by its slots.
unfoldable pub pipe_exists : Table Pipe → ℕ → Bool
unfolding occupied
pipe_exists pipes i = occupied (get_elem? pipes i) == 1

unfoldable pub get_pipe : Table Pipe → ℕ → Run Pipe
unfolding pipe_exists lookup
get_pipe pipes i = if pipe_exists pipes i then lookup pipes i else fault assertion_failed

-- The count of an end of the pipe, in `duplicate_open_file` and `close_open_file`.
unfoldable pub is_read_only : OpenFlags → Bool
is_read_only flags =
    flags.read && not flags.write && not flags.append && not flags.directory && not flags.create

unfoldable pub change_count : (ℕ → ℕ) → OpenFile → Pipe → Pipe
unfolding is_read_only
change_count change file p =
    if is_read_only file.flags
    then record p { amount_of_read_file_descriptors = change p.amount_of_read_file_descriptors }
    else record p { amount_of_write_file_descriptors = change p.amount_of_write_file_descriptors }

unfoldable pub change_pipe : (ℕ → ℕ) → OpenFile → ℕ → Table Pipe → Table Pipe
unfolding change_count
change_pipe change file i pipes = elim (get_elem? pipes i) [
  | none ↦ pipes
  | some none ↦ pipes
  | some (some p) ↦ set pipes i (some (change_count change file p))
]

unfoldable pub duplicate_open_file : OpenFile → ℕ → Table Pipe → Table Pipe
unfolding change_pipe
duplicate_open_file = change_pipe (λ n. add64 n 1)

unfoldable pub close_open_file : OpenFile → ℕ → Table Pipe → Table Pipe
unfolding change_pipe decrease
close_open_file = change_pipe decrease

-- `read` of the file system, with whether a signal interrupted the task.
unfoldable pub read_file :
    Surroundings → Bool → ℕ → ℕ → Table Pipe → Run (Table Pipe × Option Error × Text)
unfolding pipe_exists get_pipe read
read_file around stopped i count pipes =
    if not (pipe_exists pipes i)
    then ok (pipes, some invalid_file, [])
    else get_pipe pipes i >>= λ p.
        let (p', bytes) = read around count p in
        let bad = if length bytes == 0 && stopped then some interrupted else none in
        ok (set pipes i (some p'), bad, bytes)

-- What `write` of the file system answers; SIGPIPE is raised with `pipe_closed`.
unfoldable pub write_answer : Bool → Option ℕ → Option Error × ℕ
write_answer stopped none = (some pipe_closed, 2 ^ 64 - 1)
write_answer stopped (some amount) =
    (if amount == 0 && stopped then some interrupted else none, amount)

unfoldable pub write_file :
    ℕ → Surroundings → Bool → ℕ → Text → Table Pipe → Run (Table Pipe × (Option Error × ℕ))
unfolding pipe_exists get_pipe write write_answer
write_file fuel around stopped i bytes pipes =
    if not (pipe_exists pipes i)
    then ok (pipes, (some invalid_file, 0))
    else get_pipe pipes i >>= λ p.
        write fuel around bytes p >>= λ r. ok (set pipes i (some r.0), write_answer stopped r.1)

unfoldable pub get_file_info : ℕ → FileInfo → Table Pipe → Run (Option Error × FileInfo)
unfolding pipe_exists get_pipe
get_file_info i info pipes =
    if not (pipe_exists pipes i)
    then ok (some invalid_file, info)
    else get_pipe pipes i >>= λ p. ok (none, p.file)
