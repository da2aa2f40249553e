-- ===== src/Webhook.antt =====
-- internal/webhook: the admission webhooks.
pub mod Types
pub mod Admission
pub mod Validate
pub mod SplitDns
pub mod Mutate
pub mod Server
pub mod Responses
