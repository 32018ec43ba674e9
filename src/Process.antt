-- ===== src/Process.antt =====
-- ku/src/process and kernel/src/process: identifiers, the table and the scheduler of processes.
pub mod Pid
pub mod Table
pub mod Scheduler
pub mod Elf
pub mod Tests
pub mod Spaces
pub mod ElfTests
