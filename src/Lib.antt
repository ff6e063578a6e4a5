-- ===== src/Lib.antt =====
-- The file system of the kernel in project4/src: the buffer cache (filesys/cache.c), the inodes
-- (filesys/inode.c), the map of free sectors (filesys/free-map.c, lib/kernel/bitmap.c), and the
-- block device below them (devices/block.c); above them directories (filesys/directory.c), paths
-- (filesys/filesys.c) and the open files of a process with its system calls (userprog/process.c,
-- userprog/syscall.c); waiting for a child; the scheduler with semaphores and locks
-- (threads/thread.c, threads/synch.c), and the sleeping threads of devices/timer.c.  Paths are
-- from project4/src.  Apart from the kernel, the B-tree of the second homework.
--
-- How the parts interact.  A file is an inode whose pointers name sectors.  inode_read_at and
-- inode_write_at go from a position in the file to a sector with byte_to_sector, which reads the
-- blocks of pointers from the device, and to the bytes of that sector with
-- filesys_cache_block_get, which reads and evicts blocks of the device.  inode_expand takes
-- sectors from the free map and writes them past the cache.  The free map is saved to a file of
-- its own with bitmap_write.  A directory is a file of slots of 20 bytes that name inodes;
-- filesys.c walks a path from directory to directory with strtok_r of lib/string.c; a process has
-- a table from file descriptors to open files and directories, which the system calls use.
--
-- Files:
--   Bitmap      lib/kernel/bitmap.c: a map is a list of bits; create, bitmap_set, bitmap_mark,
--               bitmap_test, set_multiple, bitmap_contains, bitmap_all, bitmap_scan and
--               scan_and_flip are bitmap_create and the functions of those names.  Loops, Scan and
--               Count have the lemmas.  Packed has the same functions, with bitmap_reset,
--               bitmap_flip and the whole of bitmap_create, on words of 32 bits; Digits has the
--               laws of the bit operations, Packed/Refines and Packed/Scans what the words hold
--               after each function, Packed/Created the words of a new map.  Packed/Files has
--               bitmap_read and bitmap_write over functions on files that are parameters, and
--               Packed/RoundTrip what comes back.
--   FreeMap     filesys/free-map.c: init, allocate and release are free_map_init, free_map_allocate
--               and free_map_release.  bitmap_write is a parameter, since it leads back to the inode
--               of the map file.  Laws has the lemmas.  Pack has the words of a map.  Saved gives
--               the parameter: save and load are bitmap_write and bitmap_read on the map file, with
--               inode_write_at and inode_read_at below them; Saved/Runs follows them through the
--               cache, and Saved/Uses is what allocation, growth, creation and release do over them.
--   Device      devices/block.c: block_read, block_write and check_sector.
--   Cache       filesys/cache.c: get, evict, write_to_disk and read_ahead are
--               filesys_cache_block_get, filesys_cache_block_evict, filesys_cache_write_to_disk and
--               thread_func_read_ahead.  View says what a reader of a sector sees, Valid has the
--               invariant, Clock, Evict, Get and Flush the functions one by one, and Use what a
--               caller does between taking an entry and closing it.
--   Words       sectors read as arrays of uint32_t.
--   Inode       filesys/inode.c: struct inode, the counts of sectors, byte_to_sector.  Inode/Data
--               has the loops of inode_read_at and inode_write_at; Inode/Layout says where the bytes
--               of a file are; Inode/Copy, Inode/Read and Inode/Write have the lemmas.
--               Inode/WriteAt has inode_write_at with the growth of the file.
--               Inode/Expand has inode_expand and the functions it calls; below it Disk has one
--               allocation and one write, Fill the loop over pointers, Table and Indirect one block
--               of pointers, Loop all of them, Place and Single the whole, and Faults a full
--               device and a sector that is still cached.
--               Inode/Open has inode_open, inode_close and inode_dealloc over the list of open
--               inodes: Disk says what a sector keeps of an inode, Dealloc what is freed.
--               Inode/Create has inode_alloc and inode_create; Create/Opened is about opening what
--               was created.
--   File        filesys/file.c: the functions of those names on an open file but for file_open,
--               file_reopen and file_close; File/Use has the lemmas.
--   Sleep       devices/timer.c with cmp_ticks of threads/thread.c and list_insert_ordered: timer_sleep
--               and timer_interrupt on the list of sleeping threads; Wake has the lemmas.
--   Threads     threads/thread.c: the functions of those names on the variables of the scheduler and
--               the fields of the threads; leave is the end of thread_exit, thread_create is there from
--               init_thread on, and tick is a timer interrupt.  Rounds has one switch of threads,
--               Turns the ticks between two switches.
--   Synch       threads/synch.c: the functions of those names.  A Call is a stretch of code that no
--               interrupt divides.  A lock and the semaphore in it have one number.
--               Machine has thread_exit with release_locks, and what any thread may do next (Step).
--               Phases says how far a thread is with a lock; Moves, Own, Outcomes, Pending, Calls,
--               Exclusion, Through, Exits, Releases and Runs lead from one call to all runs, Locks is
--               what they give, and Leaves is about a thread that ends.
--               Queues says which list a thread is in; Changes, Places, Switches, Elements and
--               Steps keep it.
--   Text        lib/string.c: strlen, strcmp, strlcpy, strchr and strtok_r on lists of bytes; Split
--               gives the components of a path that strtok_r finds, Compare is about strcmp.
--   Fs          the disk with the list of open inodes: a pointer to an inode is its sector, and
--               fs_open, fs_reopen, fs_close, fs_read, fs_write and fs_remove are the functions
--               inode_* through such a pointer.  A pointer to an inode that is not open is a fault.
--               Pointers is about writes through a pointer.
--   Dir         filesys/directory.c: the functions of those names; scan is the loop that lookup,
--               dir_add, dir_readdir and dir_is_empty have.  Slots is about the bytes of a slot,
--               Search and Find about what the loop finds, Place about a write of one slot, Add about
--               the free slot that is written, Names about the names in use, Erase about the slots
--               after an entry is erased, and Remove about dir_remove.
--   Path        get_filename and get_containing_dir of filesys/filesys.c, with Names about them.
--   Filesys     filesys_create, filesys_open, filesys_remove and filesys_chdir, and file_open,
--               file_reopen and file_close of filesys/file.c.
--   Mount       free_map_open, free_map_close and free_map_create of filesys/free-map.c, and
--               filesys_init, filesys_done and do_format.
--   Descriptors process_add_file, process_add_dir, process_get_file and process_close_file of
--               userprog/process.c, and the system calls on files of userprog/syscall.c, named as
--               there but for open_file (open).  Table has the map of open files, Close the closing.
--   Wait        struct child_process with its functions, process_wait and the end of process_exit, as
--               steps that a scheduler may interleave; Runs has the invariant, Ends what it gives.
--   UserMemory  get_arg and the checks of user pointers of userprog/syscall.c; Checks has the lemmas.
--   Handler     syscall_handler: the arguments and the checks of each case.
--   Arguments   the arguments that setup_stack of userprog/process.c pushes, once the page of the
--               stack is mapped and where malloc finds room: Bytes has one push, Strings the loop over
--               the words of the command line, Layout the words, and Frame the whole.
--   BTree       HW2/code/bTree.c, from the root of the repository: searchKey and btSearch, with Keys
--               about the one and Search about the other.
--   Prelude     the Boolean tests on numbers, the results, and lemmas on lists.
--   Tests       disks and files, and runs on them; FsRuns formats a disk and creates, opens and
--               removes files and directories on it.
--
-- State and errors.  A function that changes state takes it and returns it.  A Result is the value
-- returned (ok), a failed ASSERT or PANIC (panic), or a loop that does not end (hang).  A block is
-- a function from an offset to a byte; a device is its size and a function from a sector to a
-- block.
--
-- Bounds.  Numbers are natural; size_t subtraction keeps its wrap-around (sub_size), and off_t
-- values are at least 0 and small enough not to overflow, which the theorems state where it
-- matters. The fuel of the clock is two passes: the first clears the accessed flags, the second
-- takes an entry that is not open if there is one.  Where there is none, hang says that two passes
-- made no choice; since the clock is one step, no other thread closes an entry meanwhile, as one
-- may in the kernel, where inode_read_at and inode_write_at close an entry without the lock of the
-- cache.  The counter thread_ticks is an unsigned int in the source and a natural number here; the
-- two differ only after 2 ^ 32 ticks without a switch.  A length read from a disk is an unsigned
-- word, where off_t is signed.  A loop of inode_read_at or inode_write_at moves a byte or more in
-- each round, so the size asked for is enough.  The loops of inode_expand get as many rounds as
-- there are places left.
--
-- The loops over a directory get a round for each slot and one for the short read behind them, the
-- walk of a path and the loop over the arguments a round for each byte that is left.  An int that
-- a system call takes or returns is the word of 32 bits that it is passed in.
--
-- A thread that waits in sema_down has the next round of its loop still to do, and the switch
-- between threads is a change of the running one: the stacks are the lists of calls to do.  An
-- interrupt may come between any two calls, which is more often than in the kernel, where a thread
-- that wakes in sema_down tests the value before the next one.  The page of a new thread is one
-- that no list names, as palloc_get_page gives it.  The idle thread only blocks.
--
-- Not modelled: the locks that make each function of the cache and of a directory one step, inside
-- those functions; sleeping threads together with the other queues; the counters of the block
-- layer; bitmap_destroy, bitmap_count and bitmap_dump; what bitmap_write does to a map file with
-- more sectors than its direct blocks; the creation of processes, loading of programs and page
-- tables (pagedir_get_page is a parameter); drivers and memory management; thread_init,
-- thread_start, the frames on the stack of a new thread and the priorities, which the scheduler
-- does not read; the homework of HW1, the rest of that of HW2 and the earlier kernel in pintos.
-- malloc is a Boolean that tells whether it finds room, and for the words of a bitmap a function
-- that gives them. What an array or a struct on the stack holds before it is written is a
-- parameter (uninit, e0).
pub mod Prelude
pub mod Bitmap
pub mod FreeMap
pub mod Device
pub mod Cache
pub mod Words
pub mod Inode
pub mod File
pub mod Sleep
pub mod Threads
pub mod Synch
pub mod Text
pub mod Fs
pub mod Dir
pub mod Path
pub mod Filesys
pub mod Mount
pub mod Descriptors
pub mod Wait
pub mod UserMemory
pub mod Handler
pub mod Arguments
pub mod BTree
pub mod Tests
