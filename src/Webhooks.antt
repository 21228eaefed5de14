-- ===== src/Webhooks.antt =====
-- The delivery of webhooks (src/webhooks/webhook.service.ts,
-- src/webhooks/webhook-dispatcher.service.ts).
pub mod Outbox
pub mod Delivery
pub mod Progress
pub mod Along
pub mod Delivered
pub mod Outcome
pub mod Verdict
pub mod Retry
pub mod Unloaded
pub mod Claims
pub mod AllDue
