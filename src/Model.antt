-- ===== src/Model.antt =====
-- src/solort/model: the executors that run the model on a batch.
pub mod Serving
pub mod Setup
pub mod Draft
pub mod Round
pub mod Executor
pub mod CudaGraph
pub mod Speculation
mod Examples
