-- ===== src/Installer.antt =====
-- internal/installer: what puts the plugin on a node, and takes it off again.
pub mod CniConfig
pub mod Os
pub mod Binaries
pub mod Config
pub mod Kubeconfig
pub mod CniFile
pub mod Install
