-- ===== src/Server.antt =====
-- server.go: the HTTP gateway.
pub mod Translate
pub mod Config
pub mod Handle
pub mod Body
pub mod Lifecycle
