-- ===== src/Queue.antt =====
-- backend/src/queue: the stages of the document pipeline, the limiter of its providers, and its recovery.
pub mod Status
pub mod Effects
pub mod Triples
pub mod Summary
pub mod Graph
pub mod Final
pub mod ProviderLimiter
pub mod Recovery
pub mod OwnerSlots
pub mod Reuse
pub mod Prepare
pub mod Embed
pub mod Enqueue
