-- ===== src/FdManager.antt =====
-- src/fdmanager.h and src/fdmanager.cc: what is known of each file descriptor.
pub mod Table
pub mod TableLaws
