-- ===== src/ByteArray.antt =====
-- src/bytearray.h, src/bytearray.cc and src/endian.h: a growing buffer of bytes in blocks of one
-- size, with a position at which typed values are written and read.
pub mod Defs
pub mod Access
pub mod Memory
pub mod Valid
pub mod Rounds
pub mod Grow
pub mod Write
pub mod WriteCall
pub mod Read
pub mod Seek
pub mod ReadAt
pub mod Ahead
pub mod Typed
pub mod Order
pub mod Fixed
pub mod Varint
pub mod Zigzag
pub mod Text
