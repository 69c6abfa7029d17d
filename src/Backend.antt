-- ===== src/Backend.antt =====
-- src/solort/backends: the attention implementations that the transformer's layers call.
pub mod FlashInfer
