-- ===== src/Cmd.antt =====
-- The executables under cmd.
pub mod Env
pub mod WebhookMain
pub mod InstallerMain
pub mod SidecarMain
pub mod Shutdown
pub mod WriteCorednsConfig
