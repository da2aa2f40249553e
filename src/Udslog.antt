-- ===== src/Udslog.antt =====
-- internal/udslog/uds.go: the server that takes the plugin's logs over a Unix socket.
pub mod Records
pub mod Socket
