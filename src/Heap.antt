-- ===== src/Heap.antt =====
-- ku/src/allocator: the parts of the heap allocators.
pub mod Info
pub mod Big
pub mod Quarry
pub mod FixedSize
pub mod Dispatcher
pub mod Tests
pub mod BigTests
pub mod QuarryTests
