-- ===== src/Tests.antt =====
-- Concrete data on which the theorems are applied.
pub mod Fixtures
mod Snapshots
mod Answers
mod ClassifierExamples
mod PipelineExamples
mod QueueExamples
mod ReplyExamples
mod OutboundExamples
mod IngestionExamples
mod NotificationExamples
mod AlertExamples
