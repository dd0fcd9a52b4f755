-- ===== src/Connection.antt =====
-- src/servers/http/http_connection.h and src/servers/http/http_connection.cc: the HTTP client.
pub mod Pool
pub mod Borrow
pub mod Total
pub mod Build
pub mod BuildLaws
pub mod Response
pub mod ResponseLaws
pub mod Replies
