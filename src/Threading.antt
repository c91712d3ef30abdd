-- ===== src/Threading.antt =====
-- kernel/threading and include/kernel/threading.
pub mod Scheduler
pub mod Descriptors
pub mod WaitQueue
pub mod Mutex
pub mod Signals
pub mod ProgramBreak
