-- ===== src/Fs/Ext2/Device.antt =====
-- The state of a mounted ext2 file system, and the accesses to its drive, kernel/fs/ext2/ext2.cpp.
use influx.Base.{
  ℕ, ◌+◌, ◌-◌, ◌*◌, ◌/◌, ◌%◌, ◌^◌, Bool, true, false, ◌&&◌, List, [], Option, none, some, length,
  add64, replicate, set, get_elem?, ltb, leb, ◌==◌, if◌then◌else◌, sub64,
}
use influx.Base.Run.{Run, ok, fault, Fault, assertion_failed, division_by_zero}
use influx.Fs.Memory.{Memory, Field, get, put}
use influx.Fs.Ext2.Superblock
use influx.Fs.Ext2.BlockGroup
use influx.Fs.Ext2.Inode

-- What the file system calls, over a state of the drive and of the rest of the kernel: a read of an amount of
-- bytes from an address gives the bytes it reads, fewer when it fails; a write answers how many it has
-- written; then `interrupted` of the scheduler and `unix_timestamp` of the time manager.
pub record Drive (W : Type 0) : Type 0 where
  pub read : ℕ → ℕ → W → Memory × W
  pub write : ℕ → Memory → W → ℕ × W
  pub interrupted : W → Bool × W
  pub unix_timestamp : W → ℕ × W

-- `_sb`, `_block_size` and `_block_groups` of the object. The locks are left out: one call runs at a time.
pub record Ext2 (W : Type 0) : Type 0 where
  pub sb : Memory
  pub block_size : ℕ
  pub block_groups : List Memory
  pub world : W

abbrev pub Fs : Type 0 → Type 0 → Type 0
Fs W A = Ext2 W → Run (A × Ext2 W)

abbrev pub pure : {W A : Type 0} → A → Fs W A
pure a s = ok (a, s)

infixl 5 ◌>>=◌ ◌>>◌
abbrev pub ◌>>=◌ : {W A B : Type 0} → Fs W A → (A → Fs W B) → Fs W B
◌>>=◌ m f s = elim (m s) [ fault e ↦ fault e | ok (a, s') ↦ f a s' ]

abbrev pub ◌>>◌ : {W A B : Type 0} → Fs W A → Fs W B → Fs W B
m >> k = m >>= λ _. k

unfoldable pub state : {W : Type 0} → Fs W (Ext2 W)
state s = ok (s, s)

-- Code that keeps no state.
unfoldable pub lift : {W A : Type 0} → Run A → Fs W A
lift (ok a) s = ok (a, s)
lift (fault e) s = fault e

unfoldable pub stop : {W A : Type 0} → Fault → Fs W A
stop e s = fault e

-- `kassert`.
unfoldable pub assert : {W : Type 0} → Bool → Fs W (Unit {0})
assert true s = ok (tt, s)
assert false s = fault assertion_failed

-- `a * b` and `a + b` on `uint32_t`.
abbrev pub u32_mod : ℕ
u32_mod = 2 ^ 32

abbrev pub add32 : ℕ → ℕ → ℕ
add32 a b = (a + b) % u32_mod

abbrev pub sub32 : ℕ → ℕ → ℕ
sub32 a b = (a + u32_mod - b) % u32_mod

abbrev pub mul32 : ℕ → ℕ → ℕ
mul32 a b = (a * b) % u32_mod

-- The same on `uint16_t`.
abbrev pub add16 : ℕ → ℕ → ℕ
add16 a b = (a + b) % 2 ^ 16

abbrev pub sub16 : ℕ → ℕ → ℕ
sub16 a b = (a % 2 ^ 16 + 2 ^ 16 - b % 2 ^ 16) % 2 ^ 16

abbrev pub new_buffer : ℕ → Memory
new_buffer size = replicate size 0

-- `_sb.field = value`
unfoldable pub set_sb : {W : Type 0} → Field → ℕ → Fs W (Unit {0})
set_sb f value s = ok (tt, record s { sb = put f value s.sb })

-- A descriptor by `operator[]` of the vector, and a write to one of its members.
unfoldable pub block_group : {W : Type 0} → ℕ → Fs W Memory
block_group i s = elim (get_elem? s.block_groups i) [
  | none ↦ fault assertion_failed
  | some group ↦ ok (group, s)
]

unfoldable pub set_block_group : {W : Type 0} → ℕ → Field → ℕ → Fs W (Unit {0})
set_block_group i f value s = elim (get_elem? s.block_groups i) [
  | none ↦ fault assertion_failed
  | some group ↦ ok (tt, record s { block_groups = set s.block_groups i (put f value group) })
]

-- `a / b` on unsigned numbers, and `a % b`.
unfoldable pub divide : {W : Type 0} → ℕ → ℕ → Fs W (ℕ × ℕ)
divide a b s = if b == 0 then fault division_by_zero else ok ((a / b, a % b), s)

module _ {W : Type 0} (drive : Drive W) where
  unfoldable pub drive_read : ℕ → ℕ → Fs W Memory
  drive_read address amount s =
      let (bytes, world) = drive.read address amount s.world in
      ok (bytes, record s { world = world })

  unfoldable pub drive_write : ℕ → Memory → Fs W ℕ
  drive_write address bytes s =
      let (written, world) = drive.write address bytes s.world in
      ok (written, record s { world = world })

  unfoldable pub is_interrupted : Fs W Bool
  is_interrupted s =
      let (b, world) = drive.interrupted s.world in ok (b, record s { world = world })

  unfoldable pub timestamp : Fs W ℕ
  timestamp s =
      let (t, world) = drive.unix_timestamp s.world in ok (t % u32_mod, record s { world = world })

  -- Without an amount, which is -1 in the source, the rest of the block. An empty buffer is a failure.
  unfoldable pub read_block : ℕ → ℕ → Option ℕ → Fs W Memory
  unfolding state assert drive_read
  read_block block offset wanted = do
    s ← state
    let amount : ℕ = elim wanted [ none ↦ sub64 s.block_size offset | some n ↦ n ]
    assert (leb (add64 offset amount) s.block_size)
    bytes ← drive_read (mul32 block s.block_size + offset) amount
    if length bytes == amount then pure bytes else pure []

  unfoldable pub write_block : ℕ → Memory → ℕ → Fs W Bool
  unfolding state assert drive_write
  write_block block buf offset = do
    s ← state
    assert (leb (length buf) (sub64 s.block_size offset))
    written ← drive_write (mul32 block s.block_size + offset) buf
    pure (written == length buf)

  unfoldable pub clear_block : ℕ → Fs W Bool
  unfolding state write_block
  clear_block block = do s ← state; write_block block (new_buffer s.block_size) 0

  -- The superblock as it is written after each change.
  unfoldable pub save_superblock : Fs W Bool
  unfolding state drive_write
  save_superblock = do
    s ← state
    written ← drive_write 1024 s.sb
    pure (written == Superblock.size_of)

  unfoldable pub save_block_group : ℕ → Fs W Bool
  unfolding state block_group drive_write
  save_block_group i = do
    s ← state
    group ← block_group i
    written ← drive_write (s.block_size * 1 + i * BlockGroup.size_of) group
    pure (written == BlockGroup.size_of)

  -- Where the inode is: the number of its block group, and the address.
  unfoldable pub inode_place : ℕ → Fs W (ℕ × ℕ)
  unfolding state divide block_group get
  inode_place inode = do
    s ← state
    group_and_index ← divide (sub32 inode 1) (get Superblock.inodes_per_group s.sb)
    per_block ← divide s.block_size (get Superblock.inode_size s.sb)
    block_index ← divide group_and_index.1 per_block.0
    inode_block_index ← divide (sub32 inode 1) per_block.0
    group ← block_group group_and_index.0
    let block = add32 (get BlockGroup.inode_table_start_block group) block_index.0
    pure (
      group_and_index.0,
      add32 (mul32 block s.block_size) (mul32 inode_block_index.1 (get Superblock.inode_size s.sb)),
    )

  -- None is the null pointer.
  unfoldable pub get_inode : ℕ → Fs W (Option Memory)
  unfolding state assert inode_place drive_read get
  get_inode inode = do
    s ← state
    assert (leb inode (get Superblock.inodes_count s.sb) && ltb 0 inode)
    place ← inode_place inode
    bytes ← drive_read place.1 Inode.size_of
    pure (if length bytes == Inode.size_of then some bytes else none)

  unfoldable pub save_inode : ℕ → Memory → Fs W Bool
  unfolding state assert inode_place drive_write get
  save_inode inode inode_obj = do
    s ← state
    assert (leb inode (get Superblock.inodes_count s.sb))
    place ← inode_place inode
    written ← drive_write place.1 inode_obj
    pure (written == Inode.size_of)
