-- ===== src/Lib.antt =====
-- The kernel of Manios (ZKT): its memory allocators, its scheduler, its pipes and the messages of
-- its remote file protocol, its program loader, its hash, its namespaces, its in-memory file
-- system, its ARP cache and UDP, each as pure functions over an explicit state, with the theorems
-- about them.
--
-- The parts, each a module named for its source file:
-- - Heap (zkt/mm/heap.c): the kernel heap. The block list is a list of headers with their
--   addresses (Block: addr, magic, size); Heap adds heap_end and used_bytes. heap_init,
--   heap_grow, take_first_fit, kmalloc, kfree, heap_check, heap_used and heap_mapped_bytes are
--   functions on it, under their names; loops are structural recursion on the list. The page
--   frames and page tables that heap_grow calls (zkt/mm/pmm.c, zkt/mm/kpage.c) are the
--   interface record Pages, a parameter of every growing operation. Children: Tiling (the blocks
--   tile the heap, as heap_check reads it), Alloc and Grow (the two ways to a block), Live (the
--   allocations that callers hold), Kmalloc, Kfree, Session (any sequence of calls), Tests.
-- - Pmm (zkt/mm/pmm.c): the physical frames. The bitmap is the list of its bits. pmm_alloc_frame,
--   pmm_alloc_contiguous, pmm_free_frame and the counters are alloc_frame, alloc_contiguous,
--   free_frame, free_frames and usable_frames. Two loops have fuel, one unit a round. For a boundary of
--   whole pages each round of pmm_alloc_contiguous moves the start by a frame at least, so that
--   one more than the frames below the limit is enough; for any other boundary above 0 a round
--   may leave the start where it is. pmm_init is Init.pmm_init, on physical addresses; each round
--   that moves the bitmap passes a reserved region for good, so that one more than the regions is
--   enough. The theorems about them use these numbers. Children: Bits, Invariant,
--   Alloc, Boundary, RunSearch and Contiguous, Free, Init, Marking, Placing and Building, Tests.
-- - Pipe (zkt/fs/pipe.c): pipes. A direction is its queue of messages, its byte count and its two
--   wait queues. pipe_recv and pipe_send are the round of their sleeping loop, which runs with
--   interrupts off and ends in one of the constructors of Read or Write; what a call does after
--   it turns interrupts on again (waitq_wake_all) is a step of its own. Steps has the steps that
--   the threads at both ends take in any order. Children: Queue (what a round does to a queue),
--   Steps, Stream, Wakes, Calls, Tests.
-- - Sched (zkt/scheduler/sched.c): the scheduler. Threads are numbers into a table of their
--   state, and the run queue, the sleepers and each wait queue are lists of numbers. schedule,
--   thread_yield, thread_sleep_until, waitq_sleep, waitq_sleep_until, waitq_wake_one,
--   waitq_wake_all and sched_tick are functions on it, each up to the state that the next thread
--   finds; loops are structural recursion on the list that they empty. Threads has sched_init,
--   thread_exit and the two halves of thread_create_in, which turns interrupts on between them:
--   thread_alloc, where kmalloc gives a number and kstack_alloc gives a stack or not, and
--   start_thread, which queues it. Session has the calls and ticks in any order. Children:
--   Sleepers (the sorted list), Rouse and Tick (what a tick wakes), RoundRobin (whose turn it
--   is), Threads, Counts and Fits (the lists a thread is on), Switch, Starting, Resched,
--   Waiting, Waking, Expiry, Wakeups, Creation and Boot (each operation), Session, Tests.
-- - Zrp.Msg (zkt/net/zrp_msg.c, zkt/net/zrp.h): the cursor struct zmsg and every zmsg_put and
--   zmsg_get on it, with the bytes written out in little-endian order. Children: Put, Get, Read,
--   RoundTrip, Tests.
-- - Mutex (zkt/scheduler/mutex.c): the sleeping lock. mutex_lock and mutex_unlock are functions
--   up to where the thread returns, sleeps or panics; Steps has the steps of the threads that use
--   one mutex, in any order, and Exclusion what is true after any of them. Tests.
-- - Sha256 (zkt/kernel/sha256.c): SHA-256, HMAC and equal_secret. A buffer is the list of its
--   bytes. The loop of sha256_update has one unit of fuel a byte, and each round takes a byte at
--   least; that of sha256_final has 64, and meets the length field within 64 bytes. Children:
--   Compress (one block), Absorb, Padding, Counters, Blocks (what the loops add up to), Fips
--   (the standard FIPS 180-4, apart from the code) and Standard (the code against it), Digest,
--   Keyed (RFC 2104), Secret, Tests.
-- - Elf (zkt/kernel/elf.c): elf_load of untrusted bytes. What it asks of vmm.h and pmm.h is the
--   interface record Space. The loops over pages have a unit of fuel a page and two more, and the
--   loop over notes one for each 12 bytes, the size of a note header. Children: Format (the
--   headers, their checks and the ABI note), Checks, Pages, SegmentLoops, Load, Tests.
-- - Namespace (zkt/fs/namespace.c, and vnode_ref and vnode_unref of zkt/fs/vfs.c): cleaned paths,
--   mount tables and what a path resolves to in them. A vnode is its number with a reference
--   count, a location the list of its members. The walk operation of a file system is a
--   parameter: it gives a vnode, with a reference on it, or an error. The loops of vfs_clean_path
--   and ns_resolve have a unit of fuel a byte of the path, and each round passes a byte at least.
--   Children: CleanPath (vfs_clean_path; its children Names, Loop, Canonical, Tests), Locations,
--   Count (what happens to the counts), Mounts and Remount (the table as a map), Fork, Resolve,
--   Tests.
-- - Arp (zkt/net/arp.c): the ARP cache and the frames that fill it. The cache is the list of its
--   entries. What the driver does with a frame and the clock are parameters; what each
--   sleep of arp_resolve ends with, the cache and whether another thread woke it, is a parameter
--   too: the loop around it is wait_known. Its attempts are counted down. Children: Frame (the bytes), Slots (which entry is written over), Learn, Exchange (two
--   hosts), Resolve, Tests.
-- - Mbr (zkt/drivers/mbr.c, and the block requests of zkt/drivers/device.c): the partitions of a
--   disk. The bytes of its first sector, kmalloc and device_register are parameters. Children:
--   Bounds, Tests.
-- - Ramfs (zkt/fs/ramfs.c): the in-memory tree. A node is its fields with two lists of nodes, its
--   children and what follows it, as the pointers of struct ram_node have it; what the caller of
--   make_path does with the node it gets is a function that make_path applies there, and what
--   kmalloc gives is a list of answers. make_path has a unit of fuel a byte of the path, and one
--   more; each round takes a byte at least. Children: Names (the elements of a path), Tree and
--   Paths (the tree as a map from paths), Descent, Making, Walking, Adding, Files, Truncation,
--   Tests.
-- - Udp (zkt/net/udp.c, and the checksum of zkt/net/netif.c): endpoints and their queues. A packet is
--   the list of its bytes; udp_send gives the one that it hands to ip_output. The carries of a sum of
--   32 bits are folded in three rounds at most, and udp_open tries each ephemeral port once. Children:
--   Checksum, Deliver, Endpoints, Tests.
-- - Base: the names that the others share, lists under native indices, Boolean tests, and memcpy
--   as Base.Bytes.blit.
--
-- A machine word is a natural number with its wrap-around written out; size_t and uintptr_t have
-- 32 bits, as on i386. Interrupts are off in every critical section of this single-CPU kernel,
-- so that such a section is one function. Memory contents that C leaves to the caller (the word
-- where kfree looks for a header) are arguments.
--
-- Not modelled: the context switch of zkt/scheduler, and the name, stack, address space, process
-- and namespace of a thread; process_account_tick, which counts the ticks of a process;
-- poll_notify, which only wakes pollers; ns_foreach, and the mutex of a namespace, of which one
-- thread at a time is modelled. The pipe uses the scheduler only through its lists of sleepers.
-- Further not modelled: open files and the other file systems, the rest of the network,
-- processes, the list of devices, the other drivers and the i386 code, which are I/O or are
-- separate parts; the C library, the programs of userland and the desktop; third_party, a copy of
-- other projects.
pub mod Base
pub mod Zrp
pub mod Heap
pub mod Pmm
pub mod Pipe
pub mod Sched
pub mod Mutex
pub mod Sha256
pub mod Elf
pub mod Namespace
pub mod Arp
pub mod Mbr
pub mod Ramfs
pub mod Udp
