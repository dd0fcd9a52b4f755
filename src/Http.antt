-- ===== src/Http.antt =====
-- src/servers/http/http.h and src/servers/http/http.cc: methods, statuses, requests and responses.
pub mod Bytes
pub mod Fields
pub mod FieldsLaws
pub mod Method
pub mod MethodLaws
pub mod RequestLaws
pub mod Response
pub mod Status
pub mod Request
pub mod Servlet
pub mod ServletLaws
pub mod Session
pub mod SessionLaws
