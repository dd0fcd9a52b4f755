-- ===== src/Stream.antt =====
-- src/streams/stream.h and src/streams/stream.cc: the loops that move a fixed number of bytes.
pub mod Loops
pub mod Reliable
