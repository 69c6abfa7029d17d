-- ===== src/Cache.antt =====
-- The cache and VRAM management package (src/solort/cache).
pub mod PageAllocator
pub mod KvCache
pub mod BlockHash
pub mod PrefixCache
pub mod VramManager
mod Examples
