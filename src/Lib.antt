-- ===== src/Lib.antt =====
-- The kernel of first_asm/src, part by part: memory and the heap, the ATA disk and its streams,
-- the FAT16 file system, paths and file descriptors, text, and the tables of the processor.
--
-- Files and parts:
-- - Prelude: shared names, 32-bit patterns for C's `int` and `uint32_t` (Prelude/Ints), masks
--   (Prelude/Bits), and runs with undefined behaviour and exhausted fuel as results (Prelude/Run).
-- - Config: first_asm/src/config.h.
-- - Memory: first_asm/src/memory/memory.c over a byte for each address.
-- - Heap: first_asm/src/memory/heap/heap.c and kheap.c. The block table and the blocks lie in that
--   memory; `heap_malloc` and `heap_free` take and give it. Session has a program that allocates
--   inside the table, stores behind it and releases as a step relation; Held and Kept are about its live allocations. Singles
--   describes a table of one-block allocations by which blocks are taken, Below by a bound on them.
-- - Disk: first_asm/src/disk/disk.c and streamer.c. The drive is hardware and a parameter:
--   `Disk.Image.Holds` states its documented answer to a 28-bit read command.
-- - Text: first_asm/src/string/string.c over objects that are lists of bytes.
-- - PathParser: first_asm/src/fs/pparser.c. Roots and Parts are about parsing, Release about the
--   blocks that a path takes and gives back.
-- - Fat: first_asm/src/fs/fat/fat16.c. Layout has the structures, Clusters the walk along the file
--   allocation table and the reading of data, Names and Directory the directories, File the
--   operations that `filesystem_t` has, Mount `fat16_resolve`. Names/Copy, Names/Full, Lookup,
--   Open, Members, Walk and Seek are about names, lookup, opening, reading, paths and seeking;
--   Mounting and Resolve are about mounting, Load, Paths and Paths/Walk about directories that are
--   loaded from the disk.
-- - Files: first_asm/src/fs/file.c over any file system with the operations of `filesystem_t`.
-- - Registry: the table of file systems in first_asm/src/fs/file.c and `disk_search_and_init`.
-- - Volume: `fat16_fs`, the operations of Fat as the file system that Files calls.
--   Content and Texts are about files as texts, Tree about paths of any length, Room and Leaks
--   about the blocks that opening takes.
-- - Paging: first_asm/src/memory/paging/paging.c, with the tables as words in memory. Walk is
--   the processor's walk through 4 KiB pages, which faults at an entry that is not present at either
--   level (the code leaves 4 MiB pages off in the processor, and its own accesses are not write
--   protected); Pages, Tables and Whole follow `paging_new_4gb` over the heap,
--   and Blocks tells which blocks the tables take.
-- - Gdt, Terminal, Idt: first_asm/src/gdt/gdt.c, terminal/terminal.c and idt/idt.c.
-- - Task, Kernel: first_asm/src/task/tss.h and kernel.c. `kernel_start` is `kernel_main` up to the
--   demonstrations, which Kernel/Demos has; Kernel/Main composes them. Boot, Session
--   and Parsing follow the start over all the parts, to the first file that is read and to the
--   first two demonstrations, and Unmounted on a disk without a volume.
-- - Tests: runs at concrete inputs, and the theorems at inputs that meet their hypotheses.
--
-- How the code is modelled. A function that changes a structure or memory returns the new one. A
-- result of `int` is its 32-bit pattern, so `-EIO` is 2 ^ 32 - 1; signed overflow, undefined in C,
-- wraps as on the target. A typed object on the heap is a value beside its address: the heap model
-- gives and takes the address, and the bytes of the object are not in the byte memory, so a release
-- that clears a block which is still in use changes the table and the memory but not the object.
-- Pointers into the byte memory are numbers that do not wrap.
--
-- Fuel. `find_from` has one unit for each entry of the table and one more, and each round goes on
-- by an entry or more. `free_from` has as much; it ends unless the flags go on behind the table.
-- `read_bytes_fuel`, `read_clusters` and the parser of parts have one unit for each byte asked for
-- or given and one more, and use at least a byte in each round. `itoa_digits` has eleven, since an
-- `int` has ten digits at most, and `reverse_from` one more than there are characters. A scan of a
-- directory takes its fuel as an argument, since the code scans until it meets a zero byte.
--
-- Not modelled: the assembly (boot, port instructions, loading of registers) and the polling of the
-- drive's status. The endless loop of `panic` is where `kernel_main` ends.
pub mod Prelude
pub mod Config
pub mod Memory
pub mod Heap
pub mod Disk
pub mod Text
pub mod PathParser
pub mod Fat
pub mod Files
pub mod Registry
pub mod Volume
pub mod Gdt
pub mod Terminal
pub mod Idt
pub mod Paging
pub mod Task
pub mod Kernel
mod Tests
