-- ===== src/Skipper.antt =====
-- skipper/: which requests bypass the webhooks.
pub mod UserInfo
pub mod Skip
pub mod Privileged
pub mod Laws
mod Tests
