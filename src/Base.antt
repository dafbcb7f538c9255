-- ===== src/Base.antt =====
-- The directory base: the mutex with its holder, and the condition variable.
pub mod Mutex
pub mod Condition
pub mod Thread
mod Tests
