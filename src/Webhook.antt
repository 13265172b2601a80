-- ===== src/Webhook.antt =====
-- internal/publichook, internal/provider and the adapters of the three providers: webhooks.
pub mod Provider
pub mod Github
pub mod Gitlab
pub mod Harbor
pub mod Identity
pub mod Framing
pub mod Source
pub mod Handler
pub mod Answers
pub mod Acceptance
pub mod Authentic
