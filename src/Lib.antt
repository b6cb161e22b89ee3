-- ===== src/Lib.antt =====
-- Verification of fuxi, a library of shared-memory queues, pools and channels. Paths are those of the
-- repository, from its root.
--
-- The program's parts, and the files that model them:
-- - src/fuxi/base/rte_ring.h, rte_ring.hpp, ring_common.cc: `RteRing<T>`, a ring of a power of two
--   slots with two pairs of 32-bit counters. Ring holds its state and `Init`, `MoveProdHead`,
--   `MoveConsHead`, `EnqueueValues`, `DequeueValues`, `DoEnqueue`, `DoDequeue` and `UpdateTail`;
--   Ring/Copy the copy loops, Ring/Window the slots that they reach, Ring/Queue the queue that a
--   ring promises to be, Ring/Rest what a ring at rest holds, Ring/Enqueue, Ring/Dequeue and
--   Ring/Init the operations, Ring/One and Ring/Fill the calls that the free lists make.
-- - src/fuxi/base/ring_buffer.h, ring_buffer.cc: `RingBuffer`, the same of pointers (RingBuffer).
-- - src/fuxi/base/flat_object_queue.h: `FlatObjectQueue<T>`, a pool whose free ids lie in a ring
--   (ObjectPool), and the histories of its users (ObjectPool/History).
-- - src/fuxi/shm/topo/topo_state.h, topo_state.cc: the table of writers and of their readers (Topo);
--   domain_layout.h, domain_layout.cc: the tables of segments and processes and the allocator of a
--   domain (Domain), with the calls of src/fuxi/shm/shm_domain.cc. Their names are in Names, and what
--   their tables promise is in Registry.
-- - src/fuxi/shm/impl/extent_metadata.h, extent_metadata.cc, extent.h, extent.cc: an extent of blocks
--   in a segment, whose free blocks lie in a ring (Extent).
-- - src/fuxi/shm/impl/shm_conf.h, shm_conf.cc: the sizes of a channel (ShmConf).
-- - src/fuxi/base/counter.h, counter.cc: counters with a slot for each thread (Counter).
-- - src/fuxi/base/bounded_queue.h, bounded_queue.hpp: `ConcurrentBoundedQueue<T, S>` (BoundedQueue).
--   Tickets has slots and epochs; Threads is `push`, `pop`, `try_push` and `try_pop` of many threads,
--   an access of memory at a time, Threads/Invariant what holds between the accesses and
--   Threads/Safety what follows; Futex is the word of a slot with its sleepers, Futex/Wakeups that
--   they are woken; Batch is the calls on several elements, with their loops, and
--   Batch/Push, Batch/Pop, Batch/Wait, Batch/Reserve and Batch/Roundtrip what they do to the elements.
-- - src/fuxi/base/id_allocator.h, id_allocator.hpp: `IdAllocator<T>`, ids given out and taken back
--   (IdAllocator), which ids are active (IdAllocator/Active), and the histories of its users
--   (IdAllocator/History).
-- - src/fuxi/base/vector.h, vector.hpp: `ConcurrentVector<T>` (Vector). Vector/Sizes is its block size,
--   Vector/Places where elements lie, Vector/Segments the calls of `for_each`, Vector/Writes and
--   Vector/Assigns `fill_n` and `copy_n`; Vector/Growth is `get_qualified_block_table` of many threads,
--   an access of memory at a time, Growth/Invariant what holds between the accesses, Growth/Safety
--   and Growth/Rounds what follows, and Vector/Addresses what that means for the elements;
--   Vector/Retire is the `RetireList` of old tables.
-- - src/fuxi/base/flat_signal_queue.h, src/fuxi/shm/topo/process_state.cc: the event queue of a process
--   over a bounded queue (EventQueue). EventQueue/Tries and Pushes use its operations and their laws,
--   EventQueue/Bounded proves the laws of the model of its code, EventQueue/Histories has what follows.
-- - src/fuxi/shm/impl/block.cc: the locks of a block as threads take them at once (Block).
-- - src/fuxi/shm/impl/segment.cc, segment_state.h: the handles of a segment (Segment).
-- - src/fuxi/mm/page_allocator.h, page_allocator.cc: the page allocators (Memory). Memory/Pages is what
--   `PageAllocator` promises, which each allocator asks of the one below and keeps itself;
--   Memory/NewDelete, Cached, Batch and Counting are the allocators, with `PageHeap` in the last,
--   Memory/History is what their users do.
-- - src/fuxi/mm/memory_resource.h, memory_resource.cc: `ExclusiveMonotonicBufferResource`, which hands
--   out the bytes of such pages (Memory/Buffer). Buffer/Release is its destroy tasks, `release` and
--   `contains`; Buffer/Layout what it keeps and where the pieces lie; Buffer/Places, NewArray, WithPage and
--   Oversize the branches of `allocate`, Buffer/Allocate the whole of it, Buffer/Returns and
--   Buffer/Registers the other calls, Buffer/Calls and Buffer/History any history of them.
-- Prelude has the words, arrays and tests that the parts share, Tests the concrete inputs.
--
-- How the code is modelled. A number of w bits is a natural number, wrapped at 2^w where the code
-- computes it; `int32_t` results that can be -1 are integers. Memory behind a pointer is a
-- function of the offset. The threads at a bounded queue take turns at any access of memory, in
-- any order, up to 2^64 - 1 accesses, so that no index wraps; there are less than 2^15 of them, so
-- that 16 bits tell the versions apart that they may meet. A call of a ring, of a table, of a
-- counter or of the id allocator, and a call on several elements of a bounded queue, runs with no
-- other thread between its steps: the calls on tables hold a write lock; for a ring, with the
-- default modes that its clients use, this is what the code relies on. A loop that waits for
-- another thread is then `none`, and each theorem says when the call returns. Loops are recursion
-- on the number of rounds that the code makes, where that is known; on fuel are `set_block_size` (32 rounds
-- are enough, or none are), `for_each` of a vector (one round more than the table has blocks), the
-- retries of `TryPush` and `TryPop` (one round) and the wait for the creator of a segment (1001 rounds).
-- The threads that grow a vector, and those at the locks of a block, take turns at any access too; the
-- `pthread` lock is what it documents, and `operator new` gives a number that it has not given
-- before, since the retire list keeps a table while a thread may use it. `absl::bit_ceil` and
-- `__builtin_clz` are parameters, with what they document as a hypothesis; the sizes of C++ types
-- are parameters, and what `OpenOrCreate` and `OpenOnly` of a segment answer is input. The calls of a
-- page allocator and of a buffer run one after the other. The aligned `operator new` and `operator
-- delete`, and the upstream memory resource of a buffer, are parameters that have memory left; sizes
-- there are those of pointers of eight bytes, and addresses within a page or a block do not wrap.
--
-- Not modelled: interleavings of the steps of one ring, of the calls on several elements of a bounded
-- queue, of those of the id allocator, of the retire list, of the event queue and of the page
-- allocators, since each would need an access-by-access model of its own as the bounded queue has;
-- the weaker memory orders and the timeouts of a bounded queue, its `pop_n` and the calls with a compensating
-- callback, which the cached page allocator makes: there they are what they do to the list of the
-- free pages; `for_each` of the id allocator; the block size of a vector that is set when the program is
-- built, and the constructors of its elements; the move of a buffer, and the resources that keep one
-- per thread or with an arena, which only forward; the layout of segments and their system calls; the
-- memory of the buckets of `ConcurrentSampler`; the templates of allocator.hpp and string_view.hpp,
-- which stand in for parts of the standard library; clocks, logging, and the copy of protobuf's arena.
pub mod Prelude
pub mod Ring
pub mod ObjectPool
pub mod RingBuffer
pub mod Registry
pub mod Names
pub mod Topo
pub mod Vector
pub mod EventQueue
pub mod Block
pub mod Segment
pub mod ShmConf
pub mod Extent
pub mod Memory
pub mod Domain
pub mod Counter
pub mod BoundedQueue
pub mod IdAllocator
pub mod Tests
