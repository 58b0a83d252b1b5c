-- ===== src/Threads.antt =====
-- project2-release: the user-level thread library. A `tcb_t *` is a number, with NULL as 0.
pub mod Heap
pub mod Queue
pub mod Compare
pub mod Mutex
pub mod Table
pub mod Library
pub mod Lifecycle
mod Tests
