-- ===== src/Smp.antt =====
-- The threads' means of waiting for each other, of smp/.
pub mod Waiting
pub mod Mutex
pub mod Condition
pub mod Channel
pub mod Thread
pub mod Switch
pub mod Runs
mod Tests
