-- ===== src/Lib.antt =====
-- Nikka: the memory types, the memory allocators, the page tables, the address spaces, the ELF loader
-- and the process table of the kernel.
--
-- Parts and files:
-- - Common: the names that all share. Common/Errors is the enumeration of ku/src/error/mod.rs, and an
--   outcome of a call that is a value, an error or a panic. Common/Bits reads bit operations as
--   arithmetic, Common/Words splits words into fields, Common/Lists indexes lists by native numbers,
--   and Common/FreeList is the list of free slots that the frame allocator and the process table
--   thread through their entries.
-- - Memory/Addr (ku/src/memory/addr.rs): physical addresses of 52 bits and virtual addresses of two
--   halves of 47 bits. An address is its number and its kind is the tag. Addr + n is add, Addr - n is
--   sub and Addr - Addr is distance.
-- - Memory/Frage (ku/src/memory/frage.rs): frames and pages of 4 KiB, 2 MiB and 1 GiB, and the steps
--   from page to page over the gap between the halves.
-- - Memory/Block (ku/src/memory/block.rs): ranges of addresses, frames or pages. The implementations
--   of the trait Memory are the constructors of a type.
-- - Memory/Mmu (ku/src/memory/mmu.rs): the entries of page tables, bit by bit, and their flags.
-- - Kernel/Range (kernel/src/memory/range.rs): which blocks and pages are those of the user.
-- - Kernel/PageAllocator (kernel/src/memory/page_allocator.rs): allocation of virtual pages from one
--   free block, and the search for that block in the root page table, which is a test of its entries.
-- - Kernel/FrameAllocator (kernel/src/memory/frame_allocator.rs): the entries of physical frames, their
--   counts of references and the list of free frames.
-- - Kernel/Mapping (kernel/src/memory/mapping.rs, kernel/src/memory/path.rs and
--   kernel/src/memory/frame_guard.rs): the walk over the four levels of page tables, and mapping and
--   unmapping of a page. The physical memory is a function from frames to their entries. The allocator
--   of frames is an interface of operations and what they promise.
-- - Kernel/AddressSpace (kernel/src/memory/address_space.rs): mapping of pages and blocks, and the
--   check of the permissions of a block.
-- - Process/Elf (ku/src/process/elf.rs): the segments of a program and how the loader maps, copies,
--   clears and protects their pages. The pair of allocators that the loader is given is a parameter.
--   Process/Elf/Loader/Views is what can be seen of its two address spaces, and what the documentation
--   of its traits says of successful calls and of room.
-- - Process/Pid (ku/src/process/pid.rs), Process/Table (kernel/src/process/table.rs) and
--   Process/Scheduler (kernel/src/process/scheduler.rs): identifiers with an epoch, the table of
--   processes and the queue. The entry into user mode is a parameter of the scheduler.
-- - Heap/Info (ku/src/allocator/info.rs): the counters of what an allocator has given out and taken
--   back.
-- - Collections/Bitmap (ku/src/collections/bitmap.rs): the words of a bitmap, in which a bit of 1 is an
--   element in use, with the cursor of the search and the count of the free elements.
--   Collections/DynamicBitmap (ku/src/collections/dynamic_bitmap.rs) grows one over mapped pages.
-- - Heap/Big (ku/src/allocator/big.rs): the allocator of pages that a heap stands on, as a record of
--   operations, which may each fail, and the method grow of the trait.
-- - Heap/Quarry (ku/src/allocator/quarry.rs): the slabs of 1 MiB that hold blocks of one size.
--   Heap/Quarry/Pages has the operations that call the allocator of pages.
-- - Heap/FixedSize (ku/src/allocator/fixed_size.rs): a bitmap and a quarry as an allocator of one size,
--   and the exchange with clips of ku/src/allocator/cache.rs, whose size is a parameter.
--   Heap/FixedSize/Stock has what calls the allocator of pages.
-- - Heap/Dispatcher (ku/src/allocator/dispatcher.rs): which allocator of one size serves a layout.
--   Heap/Dispatcher/Calls is allocation and deallocation of one size through the clips, as one thread
--   sees them.
-- - Common/Effects: calls that pass a state on also when they fail.
-- - Time (ku/src/time/correlation_point.rs): a reading of a clock that one writer updates while others
--   read it. The accesses take effect in the order of the source, those of the writer at any time
--   between those of the reader; weaker orders of memory are not modelled.
-- The Tests modules hold runs and the theorems at concrete arguments.
--
-- Blocks count addresses, pages and frames; the allocators stand on blocks and pages. An address space
-- calls its mapping for each page of a block, the mapping reads and writes entries, and it takes and
-- returns frames by the interface of the allocator. The loader stands on blocks and on the flags of
-- entries. The process table and the scheduler share identifiers
-- only. A heap takes the allocator of one size for a layout, which takes the index of a block from its
-- bitmap and the address from its quarry; both get their pages from the allocator of pages, which is a
-- parameter. The clock stands alone.
--
-- Words: a usize is a number below 2 ^ 64, and sums, differences and products of usize panic when they
-- do not fit, as the profiles of the build ask for. A sum that cannot leave the range is written
-- without the test. Loops are structural, over the number of rounds that is left, so nothing runs out
-- of fuel. State that is behind a lock is passed from call to call.
--
-- Not modelled: the duplication and the dropping of subtrees of page tables, the flush of the
-- translation cache, allocation within an address space, the reading of an ELF file's bytes (a crate
-- does it), the fallback of the heap and its unmapping, the other methods of the allocator of pages, the
-- file system, system calls, drivers, locks, logs, and all parts whose bodies the source leaves to be
-- filled in.
pub mod Common
pub mod Memory
pub mod Kernel
pub mod Process
pub mod Heap
pub mod Time
pub mod Collections
