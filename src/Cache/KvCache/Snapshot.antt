-- ===== src/Cache/KvCache/Snapshot.antt =====
-- `PagedKVCache.snapshot` of src/solort/cache/kv_cache.py.
use solo_rt.Prelude.{ℕ, String, if◌then◌else◌}
use solo_rt.Cache.PageAllocator
use solo_rt.Cache.PageAllocator.{AllocatorSnapshot}
use solo_rt.Cache.KvCache.{PagedKvCache, has_tensors}

pub record KvCacheSnapshot : Type 0 where
  pub allocator : AllocatorSnapshot
  pub num_layers : ℕ
  pub num_kv_heads : ℕ
  pub head_dim : ℕ
  pub dtype : String
  pub device : String
  pub layout : String
  pub tensor_storage : String
  pub mirrored_tokens : ℕ
  pub mirror_skipped : ℕ

unfoldable pub snapshot : PagedKvCache → KvCacheSnapshot
unfolding PageAllocator.snapshot
snapshot c = record {
  allocator = PageAllocator.snapshot c.allocator;
  num_layers = c.config.num_layers;
  num_kv_heads = c.config.num_kv_heads;
  head_dim = c.config.head_dim;
  dtype = c.config.dtype;
  device = c.config.device;
  layout = c.config.layout;
  tensor_storage = if has_tensors c then "allocated" else "metadata_only";
  mirrored_tokens = c.mirrored_tokens;
  mirror_skipped = c.mirror_skipped;
}
