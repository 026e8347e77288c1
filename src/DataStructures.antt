-- ===== src/DataStructures.antt =====
-- src/datastructures/: the concurrent pools, queues and stacks.
pub mod History
pub mod TreiberStack
pub mod MsQueue
pub mod BoundedSizeKFifo
pub mod SingleList
pub mod FlatCombiningQueue
pub mod LockBasedQueue
pub mod DistributedQueue
pub mod TsTimestamp
pub mod TsBuffer
pub mod RandomDequeueQueue
pub mod TsQueueBuffer
pub mod DtsQueue
pub mod KSegment
pub mod KStack
pub mod UnboundedSizeKFifo
