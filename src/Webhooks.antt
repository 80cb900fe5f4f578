-- ===== src/Webhooks.antt =====
-- webhooks/: the admission webhooks. Every handler returns its response without logging it, which
-- `logAdmissionResponse` does without changing it.
mod Guard
pub mod Samples
mod Tests
pub mod Pointer
pub mod Reserved
pub mod ServiceLb
pub mod RunOnce
pub mod Metadata
pub mod Organization
pub mod Quota
pub mod NodeSelector
pub mod RequestRatio
