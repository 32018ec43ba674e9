-- ===== src/Memory.antt =====
-- ku/src/memory: addresses, pages and frames, and blocks of them.
pub mod Addr
pub mod Frage
pub mod Block
pub mod Mmu
pub mod Tests
