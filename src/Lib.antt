-- ===== src/Lib.antt =====
-- The Utopia kernel: a model of its memory management with the page tables, its scheduler and
-- processes, its keyboard input, its strings, its file systems and the Linux system calls on files
-- and memory, with the theorems that make them correct.
--
-- The parts and the files that model them. Paths are from the root of the repository.
--
-- * Heap (src/mm/pmm.c: malloc, free, page_alloc). The list of heap blocks in the order of their
--   addresses; a block's payload is not part of the state. Heap/Tiles has the invariant that the
--   blocks tile the heap, Heap/Used the payloads in use and what `malloc` grants, Heap/Pages what
--   `page_alloc` grants, Heap/Release what `free` gives back.
-- * MemoryMap (src/mm/pmm.c: memory_reserve_range, memory_init). The regions of the boot loader:
--   MemoryMap/Reserve cuts reserved ranges out, MemoryMap/Init chooses the region of the heap. Its
--   result is the heap that Heap starts from.
-- * Addresses (src/mm/vmm.c: phys_to_virt, hhdm_virt_to_phys, kernel_virt_to_phys), for the Limine
--   build.
-- * Paging (include/arch/memory.h, src/arch/*/mm/paging.c). Page table entries as numbers: Paging has
--   the interface that an architecture fills and the laws the page table code relies on, Paging/X86
--   and Paging/Riscv the two architectures, Paging/Laws that both keep the laws.
-- * Vmm (src/mm/vmm.c). Page tables over any architecture that keeps those laws. A table is known by
--   its virtual address, and `page_alloc(1)` is the list of the pages it will return. Vmm/Trees says
--   when tables are well-formed, Vmm/Linking, Vmm/Steps, Vmm/Descent and Vmm/Walks follow a walk,
--   Vmm/Mapping and Vmm/Calls put the walks together, and Vmm/Outcomes says what the calls do to the
--   address spaces. Vmm/UserSpace has the functions on a whole address space, Vmm/Taking is about a
--   page taken for data, Vmm/Cloning says what `clone_page_table` makes, Vmm/Termination that
--   `map_physical_range` ends.
-- * Linux (src/exec/syscalls/linux: common.c, io.c, memory.c). The system calls on files over any
--   file system, which as in the source is a table of functions: Linux has the descriptors, opening,
--   reading and writing, Linux/Listing getdents64, Linux/Status the calls that only ask,
--   Linux/Identity the small calls about a process. Linux/Table, Linux/Opening, Linux/Reading,
--   Linux/Sequential, Linux/Writing and Linux/Invariant are about what they do. Linux/Memory has brk,
--   mprotect and munmap and Linux/Mmap mmap, which call Vmm; Linux/Unmapping, Linux/Breaks,
--   Linux/HeapPages, Linux/Growth, Linux/Blocks and Linux/Placing are about them.
-- * Keyboard (src/drivers/keyboard/keyboard.c). The input ring, its two operations (Keyboard/Queue)
--   and the blocking read (Keyboard/Read). Ps2 (src/drivers/keyboard/ps2.c) is the interrupt handler
--   that pushes into the ring; Ps2/Held says which shift keys are down.
-- * Text (src/lib/string.c, src/lib/numbers.c). Comparison, reversal and printing of numbers. The
--   file systems compare names with its `strcmp`.
-- * Ramfs (src/fs/ramfs.c). Nodes are positions in a store, which the operations pass on:
--   Ramfs/Directory and Ramfs/Names are about the tree of names, Ramfs/File about contents.
-- * Vfs (src/fs/vfs.c). The drivers and mounts (Vfs/Mounting), path lookup (Vfs/Paths, Vfs/Resolve),
--   opening and creating (Vfs/Open). The mounted file system is a parameter, as in the source, where
--   it is a table of functions; Vfs/Creates states the contract of `create` as a record that the
--   client takes as a parameter, and Vfs/OnRamfs fills it from Ramfs.
-- * Scheduler (src/exec/scheduler.c). Threads are positions in a store and the lists are the chains
--   of their `next`, as in the source. Scheduler/Calls has the entry points, Scheduler/Chains the
--   lists, Scheduler/ReadyQueue the queue that they implement, Scheduler/Waiting the wait queues and
--   Scheduler/Switching the choice of the next thread. The reader of the keyboard waits on such a
--   queue.
-- * Process (src/exec/process.c: process_terminate, process_wait_child). The table of processes:
--   Process/Wait is about waiting for a child, Process/Members about who is in the table,
--   Process/Terminate about what the end of a process leaves, and Process/Reap joins the two.
-- * Memory (src/mm/utils.c: memcpy, memmove, memcmp). A memory of bytes; Memory/Copies says what the
--   copies leave at every address, Memory/Compare what the comparison decides.
-- * Base (no source of its own). Numbers, lists, options and words that the parts share.
--
-- Integers are natural numbers. Where the source adds, subtracts or multiplies 64-bit words the model
-- wraps as the words do (`add64`, `sub64`, `mul64` of Base/Words), and so it does for the 32-bit
-- counters of the ring. A C string is the list of its characters without the NUL.
--
-- Loops are recursion on the data they walk, or on fuel. `reserve_loop` of MemoryMap has one round
-- more than the 64 entries of the map. `find_from` of Ramfs has the length of the store as fuel:
-- `next` leads to an older node, so no chain is longer. `walk` of Vfs has the length of the path
-- and one more, since each round takes a character. `drain` of Keyboard has the 256 places of the
-- ring, `reverse_loop` of Text the length of the string, and `digits_loop` the 64 binary digits of
-- a word. `wake` of Scheduler takes its fuel as an argument, since the source has no bound on the
-- number of threads; its theorems say how much is enough. `map_range` of Vmm has as many rounds as
-- there are huge pages in the size and two more, and `entries_loop` of Linux/Listing as many as there
-- are bytes in the buffer, since each record takes some. The loops of munmap, mprotect and brk are
-- counted by their pages, `rounds` of Linux/Memory. The theorems about the other functions
-- hold with that fuel, so it is enough.
--
-- Not modelled: locks and interrupt flags, which only bracket the operations above; output on the
-- screen and the log; the panics on misuse; flushes of the TLB. A failing allocation inside a file
-- system is a Boolean argument. What arrives while a reader of the keyboard waits is an argument of
-- the read. Creation and exit of threads, creation and cloning of processes, what a process owns
-- beyond its files, its page table and its heap, the system calls ioctl, uname, getrandom,
-- arch_prctl and those on processes, the loader, the tar file system and the devices are not part of
-- the model.
pub mod Base
pub mod Addresses
pub mod Heap
pub mod MemoryMap
pub mod Keyboard
pub mod Ps2
pub mod Text
pub mod Ramfs
pub mod Vfs
pub mod Scheduler
pub mod Process
pub mod Memory
pub mod Paging
pub mod Vmm
pub mod Linux
