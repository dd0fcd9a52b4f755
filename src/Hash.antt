-- ===== src/Hash.antt =====
-- src/hash.cc: Base64Encode and Base64Decode.
pub mod Base64
pub mod Base64Length
