-- ===== src/Util.antt =====
-- src/util.h and src/util.cc: strings as lists of bytes.
pub mod Url
pub mod Escape
pub mod RoundTrip
pub mod Trim
pub mod TrimLaws
