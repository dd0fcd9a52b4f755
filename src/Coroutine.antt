-- ===== src/Coroutine.antt =====
-- src/coroutine.h and src/coroutine.cc: the coroutines of one thread.
pub mod States
pub mod Running
pub mod Steady
pub mod Reach
pub mod Nested
