-- ===== src/Lib.antt =====
-- airix is a small kernel for 32-bit PC hardware. This library models parts of it that keep state
-- of their own, and proves what makes each correct.
--
-- Prelude: shared names, Boolean tests, lists over native numbers, one-bit masks, tables as
--   functions.
-- Keyboard (kernel/keyboard.c, kernel/keyboard.h): the key codes and states in Keyboard/Codes; the
--   driver's functions under their own names. keyboard_handler is composed of scan_key, from bytes
--   to a key, and deliver, from a key to the states and the registered handler, whose calls are
--   recorded. The two ports are a parameter, the record Device of in_byte and out_byte.
-- Pmm (mm/pmm.c): the buddy allocator. The record Pmm holds `pages` and `free_blocks`; pages are
--   numbers, an area is the list of its blocks. pmm_alloc_pages is find_area with alloc_block and
--   split_down, its two loops; pmm_free_pages is merge_up with free_buddy. Pmm/Cover counts for
--   each page the blocks that hold it, Pmm/Valid is the invariant, with the list of the blocks that
--   are handed out as its abstract part.
-- Print (lib/vsnprintf.c): vsnprintf and the functions it uses. A buffer is the list of the
--   characters written; a round of the main loop at a percent sign is scan_flags, scan_width and
--   convert.
-- Slab (mm/slab.c): the slab allocator on top of Pmm: alloc_slab_page calls pmm_alloc_pages. The
--   record Slabs holds the page allocator, the slabs by address and the caches; their doubly linked
--   lists are lists of addresses.
--
-- Bio (kernel/bio.c): the cache of disk pages on top of Slab. bio_get and alloc_bio give up the
--   processor in loops: bio_get, bio_get_new and claim_bio are the code from one such point to the
--   next, and GetStep says where it stands. Requests to the disk are records DmaIo, and the
--   completions that the interrupt calls are read_complete and write_complete.
--
-- Vmm (mm/vmm.c, mm/vmm.h): page directories and tables on top of Pmm. Vmm/Walk reads a directory
--   as a map from addresses to pages, by which the operations are specified.
--
-- Pid (kernel/process.c): the bitmap of process ids, alloc_pid and free_pid.
--
-- Sched (kernel/scheduler.c): the ring of processes; scheduler is a round of the endless loop up to
--   the switch, and find_runnable its inner loop. The states of processes are those of Bio.
--
-- Paging (mm/paging.c): the kernel's directory on the pages of Vmm. A page is known by its virtual
--   address also where the source writes by the physical one, and the highest physical address is
--   an argument of pg_complete_paging.
--
-- Axfs (fs/axfs.c, fs/axfs.h): the file system on a disk. The record Disk answers for a bio_get
--   with a bio_read: whether it went well, and the bytes from the sector on. An inode in memory is
--   an object of Slab; a pointer into a path is the rest of the path. Axfs/Names cuts a path into
--   its names, and Axfs/Path walks along them, by which namex is specified; Axfs/Read reads a file
--   byte by byte, by which read_file is. Axfs/Ops has the file operations and the structures of
--   fs/fs.h.
--
-- Vfs (fs/fs.c): files on top of Axfs, the copies of paths and the inodes by their addresses in
--   Slab.
--
-- Proc (kernel/process.c): processes by their addresses in Slab. The record Procs has the
--   allocators, the pages of directories and tables, the physical memory, the pids of Pid and the
--   ring of Sched; Vmm works on a part of it. proc_free is free_space with its loops free_tables
--   and free_entries.
--
-- Elf (kernel/elf.c): the loader. A file is a function from offsets to bytes, which goes on behind
--   the file's end, as the memory does.
--
-- Exec (kernel/process.c, kernel/scheduler.c, kernel/ktask.c): programs started, processes cloned,
--   fork, and the process of the kernel tasks. clone_tables and clone_entries are the loops of
--   init_proc_from_proc.
--
-- Qsort (lib/qsort.c): insert_sort is insert_loop with sift, its two loops, and qsort has
--   partition. The array is a function from indices to elements of any type, and the comparison a
--   parameter.
--
-- Mkfs (tools/mkfs.c): the maker of the file system. The record Mkfs has the image, a function from
--   positions to bytes, and the super block; a seek and the access behind it are one step.
--   find_byte with find_bit is the search of a bitmap, mark_bit the change of one, and
--   search_inodes and search_blocks are the loops over the groups. Mkfs/Bitmap is about the bits of
--   a bitmap, Mkfs/Words about the integers of a descriptor; Mkfs/Space has has_enough_space, whose
--   loops are two_level and three_level.
--
-- Ktask (kernel/ktask.c): the ring of kernel tasks, a doubly linked list by addresses. Ktask/Chain
--   and Ktask/Ring read it as a list, and Reached in Ktask/Round is what registrations and removals
--   lead to. run_tasks is the inner loop of ktask_main, and the call of a task's function a
--   parameter.
--
-- Numbers are natural numbers; where the source's unsigned arithmetic may wrap the wrap is written
-- out. The loop of vsnprintf takes fuel, and a fuel above the length of the format is enough, since
-- every round takes a character of it or fills the room. Waits for the keyboard controller take
-- fuel and give none where the device keeps the driver waiting longer. The loop of
-- pg_complete_paging takes fuel, and 257 is enough for 1 GB. The loop over the entries of a
-- directory block takes fuel, and 1025 is enough, since an entry takes a byte at least; that of
-- namex takes the length of the path, that of read_file 22. The loop of qsort takes twice the
-- number of elements, which is enough, and its recursion any fuel above that number. The loop of
-- the loader over the pages of a segment takes fuel; it ends unless the end of the segment is at
-- the last page. The search of the scheduler takes fuel, and one above twice the length of the ring
-- is enough where a process may run; where none may, the source's loop does not end. The loop over
-- the kernel tasks takes fuel, and one above their number is enough; the loops over the tables in
-- has_enough_space run on the entries of a table. The loops of the page allocator run on the number
-- of orders left, and those of utoa_s on the 32 bits of its argument.
--
-- Not modelled: the start of the page allocator from the memory map, the layout of a new image, its
-- directories and the copy of files into it, and the set-up of the processor and the devices.
pub mod Prelude
pub mod Keyboard
pub mod Pmm
pub mod Print
pub mod Slab
pub mod Bio
pub mod Vmm
pub mod Pid
pub mod Sched
pub mod Paging
pub mod Axfs
pub mod Vfs
pub mod Proc
pub mod Elf
pub mod Exec
pub mod Qsort
pub mod Mkfs
pub mod Ktask
