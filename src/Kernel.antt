-- ===== src/Kernel.antt =====
-- kernel/src: the memory management of the kernel.
pub mod Range
pub mod Mapping
pub mod AddressSpace
pub mod PageAllocator
pub mod FrameAllocator
pub mod Tests
pub mod MappingTests
pub mod PermissionTests
