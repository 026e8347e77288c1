-- ===== src/Lib.antt =====
-- Scal: concurrent stacks, queues and pools, the packed atomic words, random numbers and allocator
-- that they stand on, and the benchmarks that run them. This library models the parts below and
-- proves what makes them correct.
--
-- Parts, files and code:
--
-- - Prelude: names of the libraries, Boolean tests, lists, memories as functions, pairs of a value
--   and an ABA counter (`Cell`), and loops with an early return.
-- - Util/AtomicValue: src/util/atomic_value64_base.h, atomic_value64_offset.h,
--   atomic_value64_no_offset.h and atomic_value128.h.
-- - Util/Random: src/util/random.cc.
-- - Util/Malloc: src/util/malloc.cc.
-- - Util/Barrier: src/util/barrier.h.
-- - DataStructures/History: the calls and answers of src/datastructures/pool.h, as histories.
-- - DataStructures/TreiberStack: src/datastructures/treiber_stack.h.
-- - DataStructures/MsQueue: src/datastructures/ms_queue.h.
-- - DataStructures/SingleList: src/datastructures/single_list.h.
-- - DataStructures/FlatCombiningQueue: src/datastructures/flatcombining_queue.h.
-- - DataStructures/LockBasedQueue: src/datastructures/lockbased_queue.h.
-- - DataStructures/DistributedQueue: src/datastructures/distributed_queue.h, balancer_id.h,
--   balancer_1random.h and balancer_partrr.h; Stacks and StackLaws are the stack of treiber_stack.h
--   as a backend.
-- - DataStructures/RandomDequeueQueue: src/datastructures/random_dequeue_queue.h.
-- - DataStructures/TsTimestamp: src/datastructures/ts_timestamp.h.
-- - DataStructures/TsBuffer: what src/datastructures/ts_queue_buffer.h and dts_queue.h share.
-- - DataStructures/TsQueueBuffer: src/datastructures/ts_queue_buffer.h and ts_queue.h.
-- - DataStructures/DtsQueue: src/datastructures/dts_queue.h.
-- - DataStructures/KSegment: what src/datastructures/kstack.h and unboundedsize_kfifo.h share.
-- - DataStructures/KStack: src/datastructures/kstack.h.
-- - DataStructures/UnboundedSizeKFifo: src/datastructures/unboundedsize_kfifo.h.
-- - DataStructures/BoundedSizeKFifo: src/datastructures/boundedsize_kfifo.h.
--
-- How they interact: a data structure keeps its words as `AtomicValue`s and changes them by
-- compare-and-swap. Util/AtomicValue shows of each layout that comparing two packed words is comparing
-- value and counter; the data structures are modelled over such pairs, with the 64-bit counter of the
-- 128-bit layout. The distributed queue uses its backends through an interface of operations and laws,
-- which the Treiber stack fills, and the flat-combining queue uses the single-threaded list.
--
-- Concurrency: the Treiber stack, the Michael-Scott queue and the barrier are step relations, with
-- one step for each access to shared memory, of any number of threads in any interleaving. Memory is
-- sequentially consistent. An allocation yields an address that was not used before; the thread-local
-- allocator gives such addresses until its buffer wraps around. The bounded k-FIFO queue, the flat-combining
-- queue, the k-stack, the unbounded k-FIFO queue and the random-dequeue queue are run by one thread
-- at a time; in the lock-based queue a critical section is one step, and the other threads act during
-- a wait. A get of the distributed queue goes step by step, and the other threads may act before each
-- of its accesses to a backend; so does a removal from the time-stamped queue and from the DTS queue,
-- and so does the check of the k-stack that a push has taken effect.
--
-- Bounds and fuel: a machine word is a number below 2 ^ 32, 2 ^ 64 or 2 ^ 128, with the wrap-around
-- written out; the theorems about the allocator assume that addresses do not overflow. The loops of
-- the k-FIFO queues, the k-stack, the flat-combining queue and the random-dequeue queue take fuel, and
-- so do the rounds of a get of the distributed queue; the rounds of the two queues over thread-local
-- buffers are as many as the random numbers that they are given. How much is enough stands with the
-- results below; when other threads keep changing the memory, no number of rounds is enough.
--
-- Not modelled: the wait-free queues and the time-stamped stack and deque, the logger, the bitmap,
-- the graph reader and the search, which have no file here; command lines, timing, and the glue of the
-- benchmarks are input and output.
pub mod DataStructures
pub mod Prelude
pub mod Util
