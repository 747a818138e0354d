-- ===== src/Cache.antt =====
-- crates/migux_static/src/cache.rs: the response caches of the static file server.
pub mod Index
pub mod Evict
pub mod Disk
pub mod Memory
pub mod Load
mod Tests
