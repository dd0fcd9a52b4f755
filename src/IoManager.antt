-- ===== src/IoManager.antt =====
-- src/iomanager.h and src/iomanager.cc: the events that coroutines and callbacks wait for.
pub mod Events
pub mod Counted
pub mod Good
pub mod Cancel
pub mod Race
pub mod Reach
pub mod Trigger
