-- ===== src/Core.antt =====
-- src/solort/core: what a request is, who runs next, and the loop that runs it.
pub mod Sequence
pub mod Batch
pub mod Session
pub mod Scheduler
pub mod Metrics
pub mod Tokenizer
pub mod Runtime
mod Examples
