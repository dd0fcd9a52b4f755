-- ===== src/Hook.antt =====
-- src/hook.h and src/hook.cc: the system calls that the library replaces.
pub mod Calls
pub mod Rounds
pub mod Flags
pub mod FlagLaws
pub mod Sleep
