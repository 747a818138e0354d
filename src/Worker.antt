-- ===== src/Worker.antt =====
-- crates/migux_core/src/worker: the HTTP/1 side of a connection.
pub mod Body
pub mod Request
pub mod Routing
pub mod Connection
