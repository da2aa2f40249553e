-- ===== src/Tunnel.antt =====
-- The webhook and the plugin together.
pub mod Routing
pub mod Installed
pub mod Protection
pub mod Agreement
pub mod Whole
pub mod Container
pub mod Endpoint
pub mod Planned
pub mod Admitted
