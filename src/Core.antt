-- ===== src/Core.antt =====
-- engine/oyi_core: handles and allocators.
pub mod Handle
pub mod LinearAllocator
pub mod FrameAllocator
pub mod TaggedHeap
