-- ===== src/Pipeline.antt =====
-- internal/pipeline: the background pipeline.
pub mod Config
pub mod Backoff
pub mod Claim
pub mod Failure
pub mod Embed
pub mod Workers
pub mod Evaluations
pub mod Evaluate
pub mod Limiter
pub mod Searches
pub mod Postings
