-- ===== src/Pipeline.antt =====
-- internal/mail/pipeline.go: what an inbound message does to the store.
pub mod Notices
pub mod Delivery
pub mod Moderation
pub mod Posting
pub mod Subscribing
pub mod Bounces
