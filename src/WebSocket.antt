-- ===== src/WebSocket.antt =====
-- src/servers/http/ws_session.h, src/servers/http/ws_session.cc and src/servers/http/ws_connection.cc:
-- the WebSocket frames, from the server's and from the client's side.
pub mod Frame
pub mod Session
pub mod Mask
pub mod Steps
pub mod Wire
pub mod Receive
pub mod Message
pub mod Long
