-- ===== src/Timer.antt =====
-- timer/: timers, the heap that orders them by expiry, and the manager behind the timerfd.
pub mod Object
pub mod Heap
pub mod Manager
mod Tests
