-- ===== src/Tests/VfsRuns.antt =====
-- Runs of kernel/vfs/vfs.cpp over a file system with one file.
use influx.Base.{
  ℕ, ◌+◌, ◌≤◌, ◌≡◌, refl, max, true, false, List, [], ◌∷◌, ◌++◌, none, some, length, take, drop,
  length-take, ◌==◌, arith,
}
use influx.Base.Run.{ok, ◌>>=◌}
use influx.Structures.UniqueHashMap.References.{count, kept}
use influx.Threading.Descriptors.{get_file_descriptor}
use influx.Vfs.Path.{Text, FilePath, starts_with}
use influx.Vfs.Data.{
  invalid_flags, regular, FilePermissions, FileInfo, OpenFlags, OpenFile, from_end, Vnode, Mount,
  FileSystems,
}
use influx.Vfs.Nodes.{Vfs, get_fs_for_file}
use influx.Vfs.Calls.{open_path}
use influx.Vfs.Names.{unlink}
use influx.Vfs.Transfer.{read}
use influx.Vfs.Validity.{IsValid}
use influx.Vfs.Sequence.{
  Call, opens, closes, seeks, reads, writes, dups, call_all, call_all-IsValid,
}
use influx.Vfs.Errors.{Same, open_path-Same}
use influx.Vfs.Mounts.{none_left, holds, get_fs_for_file-first}
use influx.Vfs.Bounds.{ReadsWithin, read-bounds}

abbrev all_permissions : FilePermissions
all_permissions = record { read = true; write = true; execute = false }

abbrev pub blank_info : FileInfo
blank_info = record {
  inode = 0;
  type = regular;
  size = 0;
  blocks = 0;
  permissions = all_permissions;
  owner_user_id = 0;
  owner_group_id = 0;
  fs_block_size = 0;
  hard_links_count = 0;
  created = 0;
  modified = 0;
  accessed = 0;
}

-- The state is the text of the file.
abbrev one_file : FileSystems Text ℕ
one_file = record {
  read = λ fs d count position text. (text, none, take count (drop position text));
  write = λ fs d new position text. (take position text ++ new, none, length new);
  get_file_info = λ fs d info text. (none, record info { size = length text });
  read_dir_entries = λ fs d offset size text. (text, none, [], 0);
  create_file = λ fs path permissions text. (text, none, 7);
  create_dir = λ fs path permissions text. (text, none);
  duplicate_open_file = λ fs file d text. text;
  close_open_file = λ fs file d text. text;
  unlink_file = λ fs path text. ([], none);
  get_fs_file_data = λ fs path text. some 7;
  compare_fs_file_data = λ fs d e. d == e;
}

abbrev root_mount : Mount
root_mount = record { fs = 1; mount_path = record { branches = [] ∷ [] } }

abbrev home_mount : Mount
home_mount = record { fs = 2; mount_path = record { branches = [] ∷ (b'h' ∷ []) ∷ [] } }

abbrev home_file : FilePath
home_file = record { branches = [] ∷ (b'h' ∷ []) ∷ (b'f' ∷ []) ∷ [] }

abbrev nothing_open : Vfs Text ℕ
nothing_open = record {
  world = b'a' ∷ b'b' ∷ b'c' ∷ [];
  mounts = root_mount ∷ [];
  vnodes = [];
  deleted_vnodes_paths = [];
  files = record { open_files = []; file_descriptors = []; own_keys = true };
}

abbrev reads_and_writes : OpenFlags
reads_and_writes = record {
  read = true;
  write = true;
  append = false;
  directory = false;
  create = false;
}

abbrev no_flags : OpenFlags
no_flags = record reads_and_writes { read = false; write = false }

nothing_open-IsValid : IsValid (λ v. 0) nothing_open
unfolding count kept
nothing_open-IsValid = record {
  descriptors = record { sums = λ i. refl };
  shared = record { positive = λ j b h. cc };
  references = record { sums = λ i. refl };
  held = record { positive = λ j b h. cc };
  own = refl;
  apart = tt;
}

abbrev some_calls : List Call
some_calls =
    opens home_file reads_and_writes all_permissions
    ∷ reads 0 2
    ∷ dups 0
    ∷ closes 0
    ∷ seeks 1 0 from_end
    ∷ writes 1 (b'd' ∷ [])
    ∷ closes 1
    ∷ reads 1 4
    ∷ []

call_all-IsValid_example :
    (s : Vfs Text ℕ) × (call_all one_file blank_info some_calls nothing_open ≡ ok s)
    × IsValid (λ v. 0) s
call_all-IsValid_example =
    call_all-IsValid one_file blank_info (λ v. 0) some_calls nothing_open nothing_open-IsValid

open_path-Same_example : Same nothing_open nothing_open
open_path-Same_example =
    open_path-Same one_file blank_info nothing_open nothing_open home_file no_flags all_permissions
      invalid_flags refl (unfold open_path in refl)

get_fs_for_file-first_example : get_fs_for_file (root_mount ∷ home_mount ∷ []) home_file ≡ some 1
get_fs_for_file-first_example =
    get_fs_for_file-first home_file root_mount (home_mount ∷ [])
      (holds home_file home_mount [] (unfold starts_with in refl) (none_left home_file))

one_file-ReadsWithin : ReadsWithin one_file
one_file-ReadsWithin = record {
  within = λ fs d count position text. omega (arith, length-take count (drop position text));
}

abbrev file_vnode : Vnode ℕ
file_vnode = record {
  file = record blank_info { size = 3 };
  fs = 1;
  deleted = false;
  amount_of_open_files = 1;
  fs_data = 7;
}

abbrev open_at : ℕ → OpenFile
open_at position = record {
  vnode_index = 0;
  position = position;
  flags = reads_and_writes;
  amount_of_file_descriptors = 1;
}

abbrev one_open : ℕ → Vfs Text ℕ
one_open position = record nothing_open {
  vnodes = some file_vnode ∷ [];
  files = record {
    open_files = some (open_at position) ∷ [];
    file_descriptors = some 0 ∷ [];
    own_keys = true;
  };
}

read-bounds_example : (2 ≡ length {A = ℕ} (b'b' ∷ b'c' ∷ [])) × (2 ≤ 9) × (1 + 2 ≤ max 1 3)
read-bounds_example =
    read-bounds one_file (one_open 1) (one_open 3) 0 9 2 (b'b' ∷ b'c' ∷ [])
      (record {
        i = 0;
        file = open_at 1;
        vn = file_vnode;
        named = refl;
        opened = refl;
        backed = refl;
        found = unfold get_file_descriptor in refl;
      })
      one_file-ReadsWithin (unfold read in refl)

-- The text goes when the last descriptor of the unlinked file does.
unlinked_text :
    open_path one_file blank_info nothing_open home_file reads_and_writes all_permissions
      >>= (λ r. unlink one_file r.0 home_file)
      >>= (λ r. ok r.0.world)
    ≡ ok (b'a' ∷ b'b' ∷ b'c' ∷ [])
unfolding open_path unlink
unlinked_text = refl

closed_text :
    open_path one_file blank_info nothing_open home_file reads_and_writes all_permissions
      >>= (λ r. unlink one_file r.0 home_file)
      >>= (λ r. call_all one_file blank_info (closes 0 ∷ []) r.0)
      >>= (λ s. ok s.world)
    ≡ ok []
unfolding open_path unlink call_all
closed_text = refl
