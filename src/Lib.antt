-- ===== src/Lib.antt =====
-- rust-os, a kernel for x86-64 in Rust: models of its parts and their correctness.
--
-- The parts and the files that model them. A function of the source keeps its name, and a struct or
-- an enum its fields and constructors; the lines are in the repository's files named here.
--
--   BitmapAlloc: crates/bitmap-alloc. The bitmap allocator (src/alloc.rs) hands out runs of pages; its
--   loops over chunks, bits and pages are recursions on lists and counts. BitmapAlloc.Bootstrap is
--   src/bootstrap.rs, which makes the first allocator from a memory map.
--   RingBuffer: crates/ring_buffer/src/lib.rs, a ring of the latest elements.
--   Registers: arrays in device memory, of kernel/src/registers.rs.
--   Virtio.Queue: kernel/src/virtio/queue.rs. The driver adds chains of descriptors to the table and
--   offers them in the available ring; the device answers in the used ring. The device's write is a
--   step of its own (device_finishes of Virtio.Queue.Complete).
--   Memory: kernel/src/memory: kernel addresses (address.rs), pages and ranges (page.rs), and the
--   physical page allocator (physical.rs), which is a client of BitmapAlloc. Virtio.Queue.Allocate is
--   a client of it, and so is Memory.PageTable, the four-level page tables (page_table.rs): its tables
--   are a store from the address of a table and an index to an entry's word. Memory.Mapping is the
--   loops over pages of mapping.rs.
--   Sched: kernel/src/sched. Sched.Task is the table of tasks (task.rs); Sched.Core is the run queue
--   and the scheduler of one processor (schedcore.rs); Sched.Context is the assembly of switch_to_task;
--   Sched.Stack is the placement of the kernel stacks (stack.rs).
--   Ext2: kernel/src/fs/ext2: inode locations and block lists (superblock.rs, inode.rs), the bitmaps of
--   a block group (block_group.rs), the structures on the disk in bytes (Layouts, SuperblockLayout),
--   directory blocks (Directory, directory.rs), the mounted file system (FileSystem, file_system.rs)
--   and the files it offers to the virtual file system (VfsInode, vfs.rs). The file system is a client
--   of Block and Transmute, and VfsInode a file of Vfs.
--   Path: kernel/src/vfs/path.rs, file paths.
--   Block: kernel/src/block.rs, buffers of blocks of a device. Block.Memory is a device in memory that
--   meets the laws of a driver, for the tests.
--   Transmute: kernel/src/transmute.rs, bytes at an address, read and written as values of a type.
--   TextBuffer: kernel/src/graphics/text_buffer.rs, the lines of the console, a client of RingBuffer.
--   Vfs: kernel/src/vfs/fs.rs, with the file contents of kernel/src/fs/sysfs.rs. It uses Path.
--   Sync: kernel/src/sync. Sync itself is once_cell.rs, a cell that is written once; Sync.WaitCell,
--   Sync.Mutex and Sync.OnceChannel are wait_cell.rs, mutex.rs and once_channel.rs as steps of tasks
--   that run in any order; in the cell and the channel a timer interrupt that switches a task out while
--   it is set to sleep (interrupts.rs) is a step too.
--   Prelude: tests on numbers, lists, single bits of words, and the outcome of code that may panic.
--
-- Conventions. Code that may panic returns Exec: a failed assertion, an index out of range, an unwrap
-- of nothing, a division by zero and an overflow (the checks of the debug profile) are its outcome
-- panic. Machine words are natural numbers with their wrap-around written out. State is passed
-- explicitly: an operation that takes &mut self returns the new state. Locks are held for a whole
-- operation, so an operation is one step; only in Sync.WaitCell, Sync.Mutex and Sync.OnceChannel each
-- call that an operation makes is a step, and in Sync.Mutex interrupts are left out. Tables in memory
-- are lists, but the page tables a store.
--
-- Fuel. Loops are recursions on their lists or on the number of rounds left. Other loops take fuel: a
-- loop over the ring's iterator (collect) is enough with one round more than there are elements, and
-- the walk of a descriptor chain (chain), which a cyclic table never ends, with one round for each
-- descriptor of the chain. Both amounts are in the theorems. The walks through the page tables take
-- four rounds, one for each level, which is always enough (Memory.PageTable.Rounds). Reading a whole
-- file takes one round for each 4096 bytes, and at least one (Vfs.ReadAll, Ext2.VfsInode.Whole). The
-- walk through the entries of a directory block takes one round for each entry and one more; creating a
-- file gives it one more than the block has bytes, which is enough for every block whose entries do
-- not have the length zero.
--
-- Parameters. The x86_64 crate's align_down and PhysAddr::new are fields of Memory.AddressLibrary,
-- with what their documentation says; the caller of the bootstrap provides the memory of the bitmap;
-- the methods of a file system are fields of Vfs.FileSystem, and those of a device of
-- Block.BlockDeviceDriver, with the address at which the bytes of a read are allocated, of which nothing
-- is assumed, and with three laws: a read has the length that was asked for, finds what was
-- just written at the same place, and does not see a write to other blocks. The casts of the zerocopy
-- crate go by Transmute.Layout, how a type lies in memory, its alignment included; the layouts of
-- packed structures are little-endian words one after the other, of alignment one (Transmute.Layouts).
--
-- Not modelled: the list of the entries of a directory for the virtual file system, the tree of sysfs,
-- the spin locks themselves, timers, system calls, drawing, and all code that only drives devices or
-- prints. Logging and debug output are left out everywhere.
pub mod Prelude
pub mod BitmapAlloc
pub mod RingBuffer
pub mod Registers
pub mod Virtio
pub mod Memory
pub mod Sched
pub mod Ext2
pub mod Path
pub mod Block
pub mod Transmute
pub mod TextBuffer
pub mod Vfs
pub mod Sync
