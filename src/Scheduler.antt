-- ===== src/Scheduler.antt =====
-- src/scheduler.h and src/scheduler.cc: the tasks of a scheduler and what its threads do with them.
pub mod Tasks
pub mod Order
