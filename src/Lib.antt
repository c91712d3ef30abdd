-- ===== src/Lib.antt =====
-- A model of the influx kernel in cubical type theory, with the theorems that make its parts correct.
--
-- The kernel is C++ over a few structures of its own. The parts modelled here, from the bottom up:
--
-- Base holds what all parts share: lists and tests over the native natural numbers, 64-bit addition
-- and subtraction that wrap, the bits of a number, and `Run`, the result of code that may go wrong
-- (a null pointer, an access out of bounds, the use of a deleted node).
--
-- Structures.Fifo is the byte ring of kernel/structures/fifo.cpp (`push`, `pop`), with its indices of
-- 64 bits. Fifo.Contents says which bytes a ring holds, Fifo.Queue what the operations do to them.
--
-- Structures.NodeList is the ordered list of include/kernel/structures/node.h. Structures.HashMap is
-- the chained hash map of include/kernel/structures/hash_map.h (`at`, `insert`, `rehash`, `erase`),
-- faults of `erase` included: a node that is deleted while linked is marked so. `insert` calls
-- `rehash`, which calls `insert` for each node; the model runs on fuel 2, which is enough since the
-- doubled buckets bear one node more than `rehash` inserts. The load is compared as `float`s, of 24 bits.
-- Structures.UniqueHashMap is include/kernel/structures/unique_hash_map.h, the map whose keys are
-- handed out in order and used again after `erase`; files, threads and vnodes of the kernel are kept
-- in such maps. Its Spec is a table of slots, and its Refinement, Removal and
-- Trace relate the two. References and Balance are about a table whose values name the slots of another
-- one that counts them, as descriptors name open files and open files name vnodes.
--
-- Structures.Bitmap is include/kernel/structures/bitmap.h; Memory.PhysicalAllocator is
-- kernel/memory/physical_allocator.cpp, the allocator of physical pages on that bitmap.
--
-- Memory.VirtualAllocator is kernel/memory/virtual_allocator.cpp: the ordered list of the regions of the
-- kernel's addresses, with the page that the nodes of the list are taken from (Insertion, Release and Calls have the
-- operations). The paging manager is a parameter, a record of the calls that the allocator makes.
-- `insert_vma_region` calls itself for the page of a new node; the model runs on fuel 2, enough
-- since such a page has room for the nodes of its own region. Regions says what the list tells of
-- an address, and the other modules what the operations change of that.
--
-- Threading.Scheduler is the part of kernel/threading/scheduler.cpp that keeps the priority queues; a
-- context switch ends at the choice of the next task. Its Leave has `sleep`, the end of a task and the
-- timer.
--
-- Threading.Descriptors has the tables of open files and file descriptors that the scheduler keeps for a
-- process. Threading.WaitQueue is kernel/threading/task_wait_queue.cpp with the notify calls of
-- kernel/threading/condition_variable.cpp, over the scheduler. Threading.Mutex is
-- kernel/threading/mutex.cpp as a step relation: what one thread does at once, under the spinlock of
-- the value or of the queue, is a step, so the calls of any number of threads interleave in every way.
-- Threading.Signals is the part of kernel/threading/scheduler.cpp about signals: what a task does with
-- one, Send the way from a process to its tasks, Next the signals that wait for the current task. A
-- handler that starts is an entry of a list; its registers and its stack are left out.
--
-- Threading.ProgramBreak is `sbrk` of kernel/threading/scheduler.cpp over the calls of the paging manager.
-- Its loops have fuel for each page between the two ends and one more round.
--
-- Format is kernel/format.cpp: numbers and format strings. The digits run on fuel 22, the number of
-- octal digits of 64 bits.
--
-- Vfs.Path is kernel/vfs/path.cpp with include/kernel/vfs/path.h: paths as branches, read from and
-- printed to strings. Vfs.Nodes, Calls, Transfer and Names are kernel/vfs/vfs.cpp: mounts and vnodes,
-- `open` and `close`, the calls that move the position, and the calls that ask or name; the `dup` of
-- kernel/syscalls/dup.cpp stands with them. The file systems are a parameter, a record of the virtual
-- functions of include/kernel/vfs/filesystem.h over a state of their own. A map of the kernel is its
-- table of slots there, and a key that it does not hold is a fault. Vfs.Pipes is
-- kernel/vfs/pipe_manager.cpp and kernel/vfs/pipe_filesystem.cpp over the byte ring: its reads and
-- writes take what the other threads do during a wait as a parameter, and the loop of a write runs on
-- fuel, of which one unit is spent in each round and one at the end. The other modules of Vfs say what
-- the calls keep true; one call runs at a time.
--
-- Fs.Ext2 is kernel/fs/ext2/ext2.cpp. The structures of include/kernel/fs/ext2 are their bytes in memory
-- (Fs.Memory), with a module of the members of each: Superblock, BlockGroup, Inode, Entry. Device has the
-- state of the file system, the monad of its functions, the drive, which is a parameter, and the reads and
-- writes of blocks and inodes; Allocation and Release are alloc_block, alloc_inode, free_block, free_inode
-- and what they call, over bitmaps of bytes (ByteBitmap); Blocks is get_block_for_offset; Files is read_file
-- and write_file; Directories is read_dir and find_inode, Entries create_dir_entry, Removal
-- remove_dir_entry; Calls and Creation are the functions that the virtual file system calls. The loop of
-- write_file has fuel for each byte and one more round; the other loops over files and directories take
-- their fuel as an argument. Outcome states what holds of a result.
--
-- Drivers.Slice is kernel/drivers/ata/slice.cpp, the bytes of a part of a drive over accesses to sectors,
-- which are a parameter.
--
-- Time.Clock is the conversion of a date in kernel/drivers/time/cmos.cpp, and Time.Clock.Days the count it
-- is compared with.
--
-- Tests holds runs at concrete inputs.
--
-- Not modelled: code that is hardware input and output (the drivers but for the slice and the clock,
-- consoles, paging, interrupts, start-up), the heap, which is a copy of liballoc, the creation and the
-- removal of pipes, the creation and the clean-up of processes, alarms, terminals and most of the system
-- calls. Memory is never exhausted where no parameter says otherwise, and a reference to a vector or a map
-- is used before the next change.
--
-- The model stops, with a fault, at two places where the code goes on with a broken map: where `unlink` would
-- put a second path into a bucket of the map of the paths to unlink, whose `erase` then leaves a deleted node
-- linked; and where a process that was forked, or that gave a descriptor a free number, has a map choose a key,
-- which may be in use, so that `open` answers an error with the vnode counted. What is written to the stack of
-- a user for a handler, and the registers that it starts with, are left out; the search for them on the kernel
-- stack is not.
pub mod Base
pub mod Structures
pub mod Memory
pub mod Vfs
pub mod Fs
pub mod Drivers
pub mod Threading
pub mod Time
pub mod Format
pub mod Tests
