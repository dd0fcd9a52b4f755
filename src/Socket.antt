-- ===== src/Socket.antt =====
-- src/socket.h and src/socket.cc: Socket and SSLSocket.
pub mod States
pub mod Owns
pub mod Reach
pub mod Stale
pub mod Transfer
