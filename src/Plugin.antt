-- ===== src/Plugin.antt =====
-- plugin/cmd: the CNI plugin.
pub mod Kernel
pub mod Net
pub mod Provider
pub mod Commands
pub mod Logging
pub mod Errors
pub mod Main
