-- ===== src/Lib.antt =====
-- The AO OS kernel, a 64-bit x86-64 kernel in C, written in the language of this library: its
-- parts as data and functions, with theorems about them. A part's state is a record, an
-- operation is a function of it, and a call that changes state returns the new state. Numbers
-- are natural numbers; where the C code computes in a machine word the wrap is written out (u8,
-- u32, u64).
--
-- Parts and files. Each names the source by its path from the root of the repository.
-- Pmm: the physical page allocator, kernel/memory/pmm.c. The bitmap is a function from the index
-- of a byte to the byte; `Pmm.Inv` has the invariant, `Pmm.Pages` the single operations,
-- `Pmm.Boot` pmm_init with the E820 map and any sequence of calls.
-- BlockCache: the sector cache, kernel/drivers/storage/block_cache.c, over the interface
-- `BlockCache.Driver.Ata` of the disk driver kernel/drivers/storage/ata.c; what a drive holds
-- after a write is not part of the interface. `Search` is about the entry that is found or
-- evicted, `Coherent` about cache and drive.
-- CString: kernel/lib/string.c on a byte memory, a function from addresses to bytes. `Strings`
-- compares and measures, `Copies` copies and fills, `Padding` is about strncpy.
-- Process: the process table and the scheduler, kernel/process/process.c, over the interface
-- `Process.Services.Machine` of what it calls (page frames, address spaces, registers, physical
-- memory, open files). `Process` holds the data and schedule_tick, `UserMemory` the pages of a
-- process, `Lifecycle` the calls of a running process and `Create` process_init and
-- process_create. `Table` and `Tick` describe one tick, `Inv` the invariant, `Fair` who gets the
-- processor and `Dormant` who never does; `Slots`, `Calls`, `Fresh`, `Outcomes`, `Creation` and
-- `Reach` are about the calls and sequences of them, `Waiting` about exit and wait, `Writing`
-- about the copies into user memory.
-- Heap: the heap of the kernel, kernel/memory/memory.c. A chain of blocks is a list of headers
-- with their addresses. `Layout` and `Merging` are about chains, `Valid` has the invariant,
-- `Roundtrip` is about kfree and `Allocation` about what a caller of kmalloc relies on.
-- Vmm: the walks of the page tables that translate addresses and check the pointers of user
-- code, kernel/memory/vmm.c, on a memory of 8-byte words. `Checks` has the rule of the processor
-- for user code and is about ranges, `Strings` about strings, `Unmap` about taking a mapping
-- away.
-- Ramfs: the RAM file system, kernel/fs/ramfs.c, with names and contents as lists of bytes.
-- `Roundtrip` is about reading what was created.
-- Keyboard: the scancode translation, kernel/drivers/input/scancode.c, and the ring buffer,
-- kernel/drivers/input/keyboard.c. `Decode` is about the translation, `Queue` about the buffer
-- as a queue.
-- Net: the network stack, kernel/net/net.c. A frame is a function from the offset of a byte to
-- the byte. `Wire` has byte order and checksum, `Net` the state and the address cache, `Output`
-- what is sent, `Input` what is received, `Client` net_init and the calls that wait for an
-- answer, `Text` what is printed and parsed; `Sums` is about the checksum, `Arp` and `Cached`
-- about the address cache, `Bounds` about the bytes of a frame that are read and `Buffers` about
-- those that are written.
-- Vfs: the mount table, kernel/fs/vfs.c. `Resolve` is about the slot that the search of resolve
-- finds, `Paths` about the mount that a path leads to and the path below it, `Mounting` about
-- vfs_mount and vfs_umount.
-- Syscall: the system calls, kernel/syscall.c, over the interface `Syscall.Kernel` of the other
-- parts and with the pointer checks of Vmm. `Calls` has the calls, `Closed` and `Confined` are
-- about what they write to user memory, `Files` is about the table of open files. Of
-- process_waitpid the interface gives the result and whether the process was collected; that its
-- exit code is stored and its handles are closed is part of the calls. What other processes do
-- while a call waits is not part of the call.
-- Fat: the allocation table of the FAT file systems, kernel/fs/fat.c, over the interface
-- `Fat.Disk.Blocks` of kernel/drivers/storage/block_cache.c. `Entries` is about the table as
-- bytes, `Table` about the table on the disk, `Roundtrip` about reading what was written;
-- `Directory` has the entries of directories, `Entry` is about the root directory. The laws of
-- `Blocks` hold from a sound state on, which a failed write may end; `Cached` has them for
-- BlockCache over a drive that stores what it reports as written.
-- Elf: the checks of the program loader, kernel/exec/elf.c. `Segments` is about the addresses of
-- segments.
-- Base: what the parts share: numbers, words and bits, tables as functions, searches and counted
-- loops, lists and options.
--
-- How the parts meet: the scheduler runs at every tick of the timer, so a process call that
-- waits is split where it waits, and sequences of ticks and calls are data
-- (`Process.Reach.Step`, `Process.Fair.ticks`). A process owns page frames of Pmm, which it
-- returns through the interface Machine. The FAT file systems read and write sectors through
-- BlockCache.
--
-- Bounds and fuel. Loops with a counter are `for_from` or a search `find_from` over the same
-- range. A C string has no length, so strlen, strcmp, strcpy and strcat run on fuel, and their
-- theorems give a result for every fuel above the length; the two copies into user memory run on
-- one more than the number of bytes, which is enough because each round covers one byte at
-- least; the check of a user range runs on three more than its number of full pages. A call that
-- waits (SYS_GETCHAR, SYS_READLINE, net_ping_ipv4, net_send_udp) runs on the list or the
-- sequence of what its rounds of polling find, and the loops of net.c keep the source's number
-- of rounds.
--
-- Where fat_get reads a sector into one byte (an entry of a FAT12 across two sectors), the
-- result is the parameter `overrun`, of which nothing is known.
--
-- Not modelled: drivers that only do port I/O, assembly, the boot loader, the user interface,
-- the mapping of pages, the address spaces of processes and, but for the checks of
-- kernel/exec/elf.c, the program loaders. Of kernel/fs/fat.c reading, creating and listing
-- files, the calls on directories and the mounting of a drive are left out, and
-- kernel/fs/fat12.c is not linked into the kernel. Of kernel/net/net.c the port I/O with the
-- card is the ring that a receive finds and the list of the frames sent. Of
-- kernel/process/process.c the argument page (process_setup_user_args) and the log messages are
-- left out.
pub mod Base
pub mod Pmm
pub mod BlockCache
pub mod CString
pub mod Process
pub mod Keyboard
pub mod Heap
pub mod Vmm
pub mod Ramfs
pub mod Net
pub mod Vfs
pub mod Syscall
pub mod Fat
pub mod Elf
