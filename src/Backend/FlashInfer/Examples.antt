-- ===== src/Backend/FlashInfer/Examples.antt =====
-- Tests on a chunk of two tokens behind one, with two query heads for a key head.
use solo_rt.Prelude.{
  ℕ, ◌+◌, ◌-◌, ◌*◌, ◌/◌, ◌≡◌, ◌<◌, refl, true, not, none, some, [], ◌∷◌, if◌then◌else◌, leb, ◌==◌,
  length, get_elem?, is_ok, pos, ok, arith,
}
use solo_rt.Cache.KvCache.{PagedKvCache, default_config}
use solo_rt.Cache.KvCache.Mirror.{store_layer_tokens}
use solo_rt.Backend.FlashInfer.{
  Bridge, Tensor, Kernels, paged_cache, kv_tensor, expand_heads, sdpa_call,
  solort_flashinfer_attention_forward, solort_kv_write_context,
}
use solo_rt.Backend.FlashInfer.Masks.{sees, sdpa_call-sees}
use solo_rt.Backend.FlashInfer.Heads.{expand_heads_lem}
use solo_rt.Backend.FlashInfer.Calls.{calls, forward-store_layer_tokens}

abbrev query : Tensor
query = record {
  batch = 1;
  is_cuda = true;
  tokens = 2;
  head_dim = 1;
  heads = ((1 ∷ []) ∷ (2 ∷ []) ∷ []) ∷ ((3 ∷ []) ∷ (4 ∷ []) ∷ []) ∷ [];
}

abbrev key : Tensor
key = record {
  batch = 1;
  is_cuda = true;
  tokens = 3;
  head_dim = 1;
  heads = ((5 ∷ []) ∷ (6 ∷ []) ∷ (7 ∷ []) ∷ []) ∷ [];
}

abbrev cache : PagedKvCache
cache = record {
  config = record default_config {
    num_pages = 4;
    page_size = 2;
    num_layers = 1;
    num_kv_heads = 1;
    head_dim = 1;
  };
  allocator = record {
    num_pages = 4;
    page_size = 2;
    free_pages = 1 ∷ 2 ∷ 3 ∷ [];
    used_pages = 0 ∷ [];
    ref_count = 1 ∷ 0 ∷ 0 ∷ 0 ∷ [];
  };
  tensors = some (record {
    convert = λ row. row;
    k_cache = λ layer page offset. [];
    v_cache = λ layer page offset. [];
  });
  mirrored_tokens = 0;
  mirror_skipped = 0;
}

abbrev bridge : Bridge
bridge = record {
  stats = record { prefill_calls = 0; decode_calls = 0; fallback_calls = 0 };
  registered = true;
  context = none;
  attention_functions = [];
  cache = cache;
}

-- FlashInfer is not there.
abbrev only_torch : Kernels ℕ ℕ
only_torch = record {
  flashinfer = none;
  sdpa = λ call. ok 9;
  unsqueeze = λ output. output;
  transpose = λ output. output;
}

sdpa_call-sees_example :
    sees {F = ℕ} (sdpa_call query key key 1 (not (query.tokens == 1))) 0 2
    ≡ leb 2 (0 + (key.tokens - query.tokens))
sdpa_call-sees_example =
    sdpa_call-sees {F = ℕ} query key key 1 0 2 (omega arith) (omega arith) (omega arith)

expand_heads_lem_example :
    (u : Tensor) × (expand_heads 2 key ≡ ok u)
    × (length u.heads ≡ 2)
    × ((k r : ℕ)
        → r < 2 / length key.heads
        → get_elem? u.heads (2 / length key.heads * k + r) ≡ get_elem? key.heads k)
expand_heads_lem_example = expand_heads_lem 2 key (omega arith) (omega arith) refl

forward-store_layer_tokens_example :
    let after =
      (solort_kv_write_context paged_cache
        (some (1 ∷ 2 ∷ []))
        (solort_flashinfer_attention_forward only_torch (some (pos 0)) query key key 1 none)
        bridge).1 in
    let stored =
      store_layer_tokens (some (pos 0)) (1 ∷ 2 ∷ []) (kv_tensor key) (kv_tensor key) cache in
    (after.cache ≡ stored.1)
    × (after.context ≡ none)
    × (after.attention_functions ≡ [])
    × (calls after ≡ (if is_ok stored.0 then calls bridge + 1 else calls bridge))
forward-store_layer_tokens_example =
    forward-store_layer_tokens only_torch (some (pos 0)) query key key 1 none (1 ∷ 2 ∷ []) bridge
      refl refl
