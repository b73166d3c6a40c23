-- ===== src/LockFree.antt =====
-- include/LockFreeSharedDataManager.h: the two queues without a mutex. No file of the program
-- includes the header.
pub mod Spsc
pub mod Mpmc
mod Tests
