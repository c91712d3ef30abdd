-- ===== src/Vfs/Data.antt =====
-- The data of include/kernel/vfs: files, open files, vnodes, errors, and what a file system does. A set of
-- open flags is the record of its members.
use influx.Base.{ℕ, zero, suc, ◌-◌, u64_mod, Bool, true, false, List, Option, none, some, get_elem?}
use influx.Base.Run.{Run, ok, fault, missing_key}
use influx.Vfs.Path.{Text, FilePath}

-- A `unique_hash_map` as its table of slots: slot `k` holds the value of key `k`.
abbrev pub Table {ℓ} : Type ℓ → Type ℓ
Table V = List (Option V)

-- `operator[]` of a key in use. The source gives a missing key an empty item behind the map's own count of
-- its keys; the model stops there.
unfoldable pub lookup {ℓ} : {V : Type ℓ} → Table V → ℕ → Run V
lookup slots k = elim (get_elem? slots k) [
  | none ↦ fault missing_key
  | some none ↦ fault missing_key
  | some (some v) ↦ ok v
]

-- `--count` of an amount of objects. The amounts stay below 2 ^ 64, so `count++` is `count + 1`.
unfoldable pub decrease : ℕ → ℕ
decrease zero = u64_mod - 1
decrease (suc n) = n

pub data Error : Type 0 where
  unknown_error : Error
  io_error : Error
  file_is_directory : Error
  file_is_not_directory : Error
  invalid_file : Error
  file_not_found : Error
  vnode_not_found : Error
  insufficient_permissions : Error
  invalid_file_access : Error
  invalid_flags : Error
  quota_exhausted : Error
  file_already_exists : Error
  buffer_too_small : Error
  invalid_position : Error
  interrupted : Error
  is_pipe : Error
  pipe_closed : Error

-- What a call answers: an error, or a value that is not negative.
pub data Reply : Type 0 where
  failed : Error → Reply
  value : ℕ → Reply

pub data FileType : Type 0 where
  unknown : FileType
  regular : FileType
  directory : FileType
  character_device : FileType
  block_device : FileType
  fifo : FileType
  socket : FileType
  symbolic_link : FileType

pub record FilePermissions : Type 0 where
  pub read : Bool
  pub write : Bool
  pub execute : Bool

pub record FileInfo : Type 0 where
  pub inode : ℕ
  pub type : FileType
  pub size : ℕ
  pub blocks : ℕ
  pub permissions : FilePermissions
  pub owner_user_id : ℕ
  pub owner_group_id : ℕ
  pub fs_block_size : ℕ
  pub hard_links_count : ℕ
  pub created : ℕ
  pub modified : ℕ
  pub accessed : ℕ

pub record OpenFlags : Type 0 where
  pub read : Bool
  pub write : Bool
  pub append : Bool
  pub directory : Bool
  pub create : Bool

pub record OpenFile : Type 0 where
  pub vnode_index : ℕ
  pub position : ℕ
  pub flags : OpenFlags
  pub amount_of_file_descriptors : ℕ

pub record DirEntry : Type 0 where
  pub inode : ℕ
  pub type : FileType
  pub name : Text

pub data SeekType : Type 0 where
  from_start : SeekType
  from_current : SeekType
  from_end : SeekType

-- A vnode of a file system whose data on a file is of type `D`. `fs` stands for its address.
pub record Vnode (D : Type 0) : Type 0 where
  pub file : FileInfo
  pub fs : ℕ
  pub deleted : Bool
  pub amount_of_open_files : ℕ
  pub fs_data : D

pub record Mount : Type 0 where
  pub fs : ℕ
  pub mount_path : FilePath

-- The virtual functions of `filesystem`, by the address of the object, over a state `W` of all file
-- systems. An error is none for `success`; what a function writes through a reference comes behind it.
pub record FileSystems (W D : Type 0) : Type 0 where
  pub read : ℕ → D → ℕ → ℕ → W → W × Option Error × Text
  pub write : ℕ → D → Text → ℕ → W → W × Option Error × ℕ
  pub get_file_info : ℕ → D → FileInfo → W → Option Error × FileInfo
  pub read_dir_entries : ℕ → D → ℕ → ℕ → W → W × Option Error × List DirEntry × ℕ
  pub create_file : ℕ → FilePath → FilePermissions → W → W × Option Error × D
  pub create_dir : ℕ → FilePath → FilePermissions → W → W × Option Error
  pub duplicate_open_file : ℕ → OpenFile → D → W → W
  pub close_open_file : ℕ → OpenFile → D → W → W
  pub unlink_file : ℕ → FilePath → W → W × Option Error
  pub get_fs_file_data : ℕ → FilePath → W → Option D
  pub compare_fs_file_data : ℕ → D → D → Bool

unfoldable pub is_directory : FileType → Bool
is_directory directory = true
is_directory other = false

unfoldable pub is_regular : FileType → Bool
is_regular regular = true
is_regular other = false

-- A FIFO or a socket, which has no position.
unfoldable pub is_stream : FileType → Bool
is_stream fifo = true
is_stream socket = true
is_stream other = false

-- The answer of a call that ends with an error or with a number.
unfoldable pub reply : Option Error → ℕ → Reply
reply none n = value n
reply (some e) n = failed e
