-- ===== src/Lib.antt =====
-- A verification library for the Pintos kernel of this repository.
--
-- The kernel runs threads on one processor. threads/thread.c keeps them and its run queue, and
-- decides which one runs; threads/synch.c builds semaphores, locks and condition variables on
-- blocking and unblocking threads, and a lock donates priorities through threads/thread.c; the
-- lists that both keep come from lib/kernel/list.c. The pages of a process are found through the
-- table of lib/kernel/hash.c. Drivers pass bytes from interrupt handlers to threads through the
-- queue of devices/intq.c, and the page allocator, the swap table and the free map count what is in
-- use in the bitmaps of lib/kernel/bitmap.c. filesys/inode.c reads and writes files sector by
-- sector and counts who has an inode open, filesys/file.c gives each opener a position, and
-- userprog/syscall.c finds the open files of a process by their descriptors. vm/vm.c gives the pages of
-- a process frames of memory, and moves the page of the oldest frame to the swap disk of vm/anon.c
-- when memory is full.
--
-- The files:
--   Base            helpers: tests on numbers, options with ASSERT, lists, stores, and C's signed integers
--   IntQueue        devices/intq.c and include/devices/intq.h
--   Bitmap          lib/kernel/bitmap.c
--   KernelList      lib/kernel/list.c: the links, insertion, removal, size
--   KernelList.Sort lib/kernel/list.c: sorting, ordered insertion, duplicates, greatest and least element
--   Hash            lib/kernel/hash.c: the chained hash table
--   Device          devices/disk.c: what reading and writing a sector does to the data
--   CString         lib/string.c: blocks of bytes and strings
--   Palloc          threads/palloc.c: the pools of pages
--   Inode           filesys/inode.c: reading and writing the bytes of a file
--   FreeMap         filesys/free-map.c: the sectors in use
--   OpenFiles       filesys/file.c and the open inodes of filesys/inode.c
--   Vm              vm/anon.c and vm/uninit.c: pages, and the swap disk
--   Vm.Claim        vm/vm.c and vm/file.c: frames, the supplemental page table, page faults
--   FdTable         userprog/syscall.c: the file descriptor table
--   Sched           threads/thread.c: the state, blocking, unblocking, yielding, exiting, sleeping, ticks
--   Sched.Donation  threads/thread.c: the donation of priorities, and `thread_set_priority`
--   Mlfqs           threads/thread.c: the advanced scheduler, with load_avg, recent_cpu and nice
--   Timer           devices/timer.c: the ticks and the timer interrupt
--   Arguments       userprog/process.c: the arguments on the stack of a new program
--   Sync            threads/synch.c: semaphores, locks, condition variables
--
-- How the code is translated. A function of the model has the name of the C function. A failed ASSERT
-- and a null pointer that is followed give `none`; where a function returns a value and changes its
-- object, the model returns the pair. A thread, a lock and a semaphore are their addresses, and `Kernel`
-- holds what stands at each address beside the static variables of thread.c. Interrupts are off
-- while these functions change the state, so that each is one step; a call that blocks returns the
-- kernel in which the next thread runs, and the blocked thread makes the rest of its call later.
--
-- Bounds and fuel. A C `int` that only counts, or that holds a number with 14 bits after the point, is
-- unbounded here; the bitmap's words have
-- their 64 bits, and a bitmap has fewer than 2 ^ 32 - 1 of them, the value of BITMAP_ERROR. `list_sort` runs for at most as many
-- passes, and a pass for at most as many rounds, as the list has elements: every round takes at
-- least one element, and every pass halves the number of runs. `list_size` needs fuel for one round
-- more than the list has elements. `priority_donation` has the code's own bound of eight rounds.
-- `rehash` shrinks a number in each round of its loop, so the number itself is fuel.
-- `inode_read_at` and `inode_write_at` take at least a byte off the size in each round, so the size
-- is fuel. `add_file_to_fdt` looks at no slot twice. All other loops recurse on the list or the
-- range that is left.
--
-- Palloc has the page allocator over its bitmaps; Vm needs only the list of what it and calloc give out next.
-- The page table is a function from a page to its entry, and a call of a disk is its effect on the
-- sectors. The string routines take fuel for the bytes that they look at. `read_sectors` and `write_sectors` have the eight rounds of the source, `hash_next` looks
-- at each bucket once. `argument_stack` takes fuel for `strlen`. `vm_stack_growth` takes fuel, which bounds the pages that it adds.
--
-- Not modelled: the switch of stacks and registers, the walk through the page table in memory, the device
-- ports, directories, the process loader, the memory map at boot, and malloc. `cond_broadcast` is left out since
-- its loop runs on across switches of threads.
pub mod Base
pub mod IntQueue
pub mod Bitmap
pub mod Device
pub mod CString
pub mod Palloc
pub mod KernelList
pub mod Hash
pub mod Inode
pub mod FreeMap
pub mod OpenFiles
pub mod FdTable
pub mod Vm
pub mod Sched
pub mod Mlfqs
pub mod Timer
pub mod Arguments
pub mod Sync
