-- ===== src/Timer.antt =====
-- src/timer.h and src/timer.cc: the set of timers and what is due.
pub mod Manager
pub mod Sorted
pub mod Expired
