-- ===== src/Lib.antt =====
-- Verification of the systems programs of CS416: four C projects that share no code.
--
--   proj3-code/code (my_vm.c, my_vm.h)   a simulated 32-bit virtual memory: two bitmaps, a TLB,
--       two-level page tables, and the allocator n_malloc / n_free above them. Clients reach the
--       memory by put_data, get_data and mat_mult. n_malloc reserves a run of virtual pages
--       (get_next_avail), takes a frame for each (allocate_phys_page) and enters it (map_page);
--       n_free undoes that page by page; translate serves put_data and get_data.
--   project2-release (thread-worker.c, datastructures.c)   a user-level thread library.
--   project4/code (rufs.c, block.c)   a FUSE file system on a block file.
--   proj1-submit (bitops.c, threads.c)   exercises.
--
-- In project4 the operations of rufs.c reach the blocks by bio_read and bio_write of block.c. A path
-- is resolved by get_node_by_path, one dir_find and one readi for each name; rufs_mkdir and
-- rufs_create take an inode (get_avail_ino), enter its name in the parent (dir_add) and write it
-- (writei); rufs_write takes blocks by get_avail_blkno; rufs_init formats a new disk (rufs_mkfs).
--
-- The development models my_vm.c, datastructures.c, rufs.c, rufs.h, block.c, and of thread-worker.c
-- the thread table, the mutex, the comparators, the life cycle of threads and the round-robin
-- scheduler.
--
-- Which file has what:
--   Base/Tests        Boolean tests on native numbers
--   Base/Memory       memory as a function from addresses to bytes; 32-bit words in it
--   Base/Bits         one bit of a byte, by bit_and and bit_or
--   Base/Search       the first number that passes a test, as the loops over tables look for it
--   Base/Copy         memcpy, and the words and bytes that it leaves alone
--   Base/Lists        lists with native lengths
--   Vm                my_vm.h and the globals of my_vm.c: Vm, Tlb, TlbEntry, the page geometry
--   Vm/Bitmap         get_bit, set_bit, clear_bit
--   Vm/Frames         allocate_phys_page, set_physical_mem (Fresh: which frame is handed out; Count:
--                     how many are free)
--   Vm/Lookaside      TLB_add, TLB_check, TLB_invalidate as tlb_add, tlb_check, tlb_invalidate
--                     (Lookup: the TLB invariant and hits; Updates: after an addition or removal)
--   Vm/Paging         translate, map_page. Layout: the uses of frames; Growth and Removal: what a
--                     new entry and a removed one do to them; Tables: a page table made on
--                     demand; Translation: the page tables as a map from pages to frames and the
--                     invariant IsValid; Mapping, Lookup, Setup, Claim: the functions against it
--   Vm/Alloc          get_next_avail, n_free, n_malloc, page_table_empty. Runs, Release, Free,
--                     Progress, Malloc: the functions against IsValid
--   Vm/Data           put_data, get_data, add_offset32, mat_mult. Pages: a copy into a mapped page
--                     and the page tables; Writing: what a copy does to the virtual address space;
--                     Put, Get, Roundtrip: the two functions and their composition
--   Vm/Tests          the theorems at concrete inputs
--
--   Threads/Heap      the minimum heap of datastructures.c. Swaps: exchanges and the order needed;
--                     Up, Down: the two loops and the heap order; Rearranged: the loops only move
--                     elements; Operations: heap_push and heap_pop
--   Threads/Queue     the linked queue of datastructures.c over a store of nodes. Chain: when nodes
--                     form a queue; Operations: enqueue and dequeue against a list
--   Threads/Compare   psjf_cmp and cfs_cmp of thread-worker.c, the comparators of the heaps
--   Threads/Mutex     worker_mutex_init, and worker_mutex_lock, worker_mutex_unlock and
--                     worker_mutex_destroy as steps of interleaved threads. Holding: which
--                     thread holds it; Exclusion: an invariant of the steps; Wakeup: a run of them
--   Threads/Table     the thread table of thread-worker.c. Search: what its loops find; Updates,
--                     Slots: the table after an addition or a removal
--   Threads/Library   the state of the threads and the round-robin scheduler: timer_handler,
--                     schedule, sched_rr. Waiting: which threads stand in the ready queue; Schedule,
--                     Requeue: the two parts of a scheduling decision
--   Threads/Lifecycle worker_create, worker_yield, worker_exit, worker_join. Steps: the calls that
--                     enter the scheduler (Wake, Block: threads that wait in worker_join; Calls: all
--                     of them); Create: a new thread
--   Threads/Tests     the theorems at concrete inputs
--
--   Rufs              the constants and the superblock of rufs.h, the negative results
--   Rufs/Device       block.c: dev_init, dev_open, dev_close, bio_read, bio_write. Blocks: reads
--                     after writes
--   Rufs/Inode        struct inode as its bytes. Fields: words that an assignment leaves alone
--   Rufs/Dirent       struct dirent as bytes of a directory block, and names in it
--   Rufs/State        the superblock in memory and the disk; results of calls that change them
--   Rufs/Bitmap       set_bitmap, unset_bitmap, get_bitmap; get_avail_ino, get_avail_blkno; the two
--                     counts. Marks: bits after an update; Takes: what an allocation takes; Count:
--                     the counts after an allocation
--   Rufs/InodeTable   readi and writei. Roundtrip: readi after writei
--   Rufs/Directory    dir_find and dir_add. Find: what dir_find returns; Same: what it looks at;
--                     Fill: a block with a new entry; Change: dir_find before and after; Fills:
--                     where dir_add puts an entry; Finish: its writes; Add: dir_find after dir_add
--   Rufs/Path         get_node_by_path. Names: strtok, dirname, basename; Tokens: strtok against the
--                     names in a path; Resolve: get_node_by_path against a list of names; Parent:
--                     dirname and basename, which the C library has, against the names; Lookup:
--                     get_node_by_path by way of the parent
--   Rufs/Format       rufs_mkfs, rufs_init, rufs_destroy. Mount: a first and a second rufs_init
--   Rufs/Operations   rufs_getattr, rufs_opendir, rufs_open, rufs_readdir, rufs_mkdir, rufs_create
--                     and the empty operations. Existing: creation of a name that exists
--   Rufs/Data         rufs_read and rufs_write. Content: the bytes of a file; Writing, Reading: the
--                     two loops; Roundtrip: a read after a write; Beyond: a write past the file
--   Rufs/Tests        the theorems at concrete inputs
--
-- Choices. A simulated address is a number with NULL as 0; `page_dir` is kept as its offset from
-- `phys_mem`. Memory is a function from addresses to byte patterns; a `uint32_t` in it is four
-- bytes, the lowest first, as on the little-endian machines the code is built for. Arithmetic on
-- `uint32_t` keeps its wrap-around (`% 2 ^ 32`); a negative `int` is its bit pattern. The
-- functions of my_vm.c run one after another: their mutexes only keep concurrent calls apart, so
-- the model leaves them out. What malloc returns is a parameter; the two callocs of the bitmaps
-- are taken to succeed. PGSIZE is 4096, the value that my_vm.h sets. A loop over a known number
-- of rounds recurses on the rounds left. The loops of put_data and get_data recurse on fuel: each
-- round moves at least one byte, so they get the number of bytes as fuel.
--
-- In project2-release a `tcb_t *` is a number, with NULL as 0. The function pointer `cmp` of a heap
-- is kept as the test `cmp(a, b) < 0`. heap_push onto a full array and heap_pop from an empty heap
-- leave the array in the code; the model returns `none` there. A node that malloc returns is a
-- parameter of enqueue, and the contents of a freed node are not read again. The two loops of the
-- heap recurse on fuel: the index of sift_up decreases, so it gets the index as fuel; the index of
-- sift_down grows below the size, so it gets the size.
--
-- In the mutex a step is one access to it; the update of the thread's state and its entry in the
-- wait queue are one step, as is waking a waiting thread. The results for a NULL mutex and for a failed
-- context switch, which change nothing, have no step.
--
-- The life cycle is that of the build with RR. A call that saves a context and goes to the scheduler
-- ends there: the result is the library and whose context goes on, or that the loop of sched_rr
-- does not end, which it does in its first round or never, since nothing else runs meanwhile. The
-- library calls of ucontext.h, signal.h and the timer are taken to succeed where the code exits the
-- process on their failure. The addresses and the contents that malloc returns are parameters, as is
-- the time. `rr_queue` is the list of its threads, by the theorems on the queue. worker_join is
-- called while a thread runs.
--
-- In project4 an inode and a directory entry are their bytes, laid out as on x86-64 (256 and 214
-- bytes, `vstat` at 112 with st_mode at 136, st_size at 160, the times at 184 and 200), since the
-- code copies them whole. A block number is the bit pattern of an `int`; `block_num*BLOCK_SIZE`
-- wraps as an `int` product does on that machine. Whether open, pread and pwrite fail is part of the
-- disk: bad_open, bad_read and bad_write, which hold throughout one operation. A file that is
-- shorter than a read is a file of zeros. A result of a function that only reads is `ok` or `err`;
-- one that changes the disk returns its state with it, also on failure. time, getuid and getgid are
-- parameters (Caller). A path is a list of characters, without the 0 that ends it, shorter than
-- PATH_MAX, and the `filler` of rufs_readdir is the list of names passed to it. The loop over
-- tokens recurses on fuel: every token shortens the text, so its length is enough. Bitmaps lie in
-- one block, `len` of an entry is at most 208 and a file offset is below 2^43, as the operations
-- need to stay inside their buffers and `int`s. Output and the closing of the FUSE session are left
-- out.
--
-- Not modelled: print_TLB_missrate, print_heap and other output; the benchmarks; the other
-- schedulers of thread-worker.c (PSJF, MLFQ, CFS); main of rufs.c, which registers the operations
-- with FUSE; proj1-submit.
pub mod Base
pub mod Vm
pub mod Threads
pub mod Rufs
