-- ===== src/Static.antt =====
-- crates/migux_static: the static file service.
pub mod Fs
pub mod Conditional
pub mod Response
pub mod Etag
