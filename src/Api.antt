-- ===== src/Api.antt =====
-- src/solort/api: the HTTP server's schemas, handlers and event stream, and the JSON that they write.
pub mod Json
pub mod Events
pub mod Schemas
pub mod Server
