-- ===== src/Proxy.antt =====
-- crates/migux_proxy/src/proxy: the reverse proxy's shared state, one module per source file.
pub mod Path
pub mod Forward
pub mod Response
pub mod Hsts
pub mod Relay
pub mod Body
pub mod Streaming
pub mod Serve
pub mod Upstream
pub mod Health
pub mod Pool
mod Tests
