-- ===== src/Backend/FlashInfer/Calls.antt =====
-- What a call of the attention function leaves in the module's globals and in the KV cache.
use solo_rt.Prelude.{
  ℕ, ◌+◌, ◌≡◌, refl, sym, inl, inr, Bool, true, false, Option, none, some, List, if◌then◌else◌,
  ◌==◌, ℤ, Result, is_ok, subst, ok, err, Bool-cases, arith,
}
use solo_rt.Prelude.Exec.{Exec, ◌>>◌}
use solo_rt.Cache.KvCache.{PagedKvCache}
use solo_rt.Cache.KvCache.Mirror.{store_layer_tokens}
use solo_rt.Backend.FlashInfer.{
  Bridge, Tensor, Kernels, paged_cache, kv_tensor, mirror_to_solort_kv, torch_attention_fallback,
  count_fallback, count_decode, count_prefill, kernel_or, dispatch,
  solort_flashinfer_attention_forward, solort_kv_write_context,
}

unfoldable pub calls : Bridge → ℕ
calls b = b.stats.prefill_calls + b.stats.decode_calls + b.stats.fallback_calls

-- One more call is counted, and nothing else changes.
pub record IsCounted (b after : Bridge) : Type 0 where
  pub one_more : calls after ≡ calls b + 1
  pub same_cache : after.cache ≡ b.cache
  pub same_context : after.context ≡ b.context
  pub same_names : after.attention_functions ≡ b.attention_functions

module _ {F O : Type 0} (x : Kernels F O) where
  fallback-IsCounted :
      (query key value : Tensor) (scaling : F) (causal : Bool) (b : Bridge)
      → IsCounted b (torch_attention_fallback x query key value scaling causal b).1
  unfolding torch_attention_fallback count_fallback calls
  fallback-IsCounted query key value scaling causal b = record {
    one_more = omega arith;
    same_cache = refl;
    same_context = refl;
    same_names = refl;
  }

  kernel_or-IsCounted :
      (kernel : Option (Result O)) (counted : Bridge → Bridge) (layout : O → O)
      (fallback : Exec Bridge O) (b : Bridge)
      → IsCounted b (counted b)
      → IsCounted b (fallback b).1
      → IsCounted b (kernel_or x kernel counted layout fallback b).1
  unfolding kernel_or
  kernel_or-IsCounted none counted layout fallback b h k = k
  kernel_or-IsCounted (some (err e)) counted layout fallback b h k = k
  kernel_or-IsCounted (some (ok output)) counted layout fallback b h k = h

  decode-IsCounted : (b : Bridge) → IsCounted b (count_decode x b)
  unfolding count_decode calls
  decode-IsCounted b = record {
    one_more = omega arith;
    same_cache = refl;
    same_context = refl;
    same_names = refl;
  }

  prefill-IsCounted : (b : Bridge) → IsCounted b (count_prefill x b)
  unfolding count_prefill calls
  prefill-IsCounted b = record {
    one_more = omega arith;
    same_cache = refl;
    same_context = refl;
    same_names = refl;
  }

  dispatch-IsCounted :
      (query key value : Tensor) (scaling : F) (sliding_window : Option ℕ) (b : Bridge)
      → IsCounted b (dispatch x query key value scaling sliding_window b).1
  unfolding dispatch
  dispatch-IsCounted query key value scaling sliding_window b =
      elim (Bool-cases (query.tokens == 1)) [
        | inl one ↦
            rw (dispatch, one)
              (kernel_or-IsCounted _ (count_decode x) _
                (torch_attention_fallback x query key value scaling false) b (decode-IsCounted b)
                (fallback-IsCounted query key value scaling false b))
        | inr more ↦
            rw (dispatch, more)
              (kernel_or-IsCounted _ (count_prefill x) x.unsqueeze
                (torch_attention_fallback x query key value scaling true) b (prefill-IsCounted b)
                (fallback-IsCounted query key value scaling true b))
      ]

  -- The bridge in a context with the paged cache and these slots.
  abbrev pub inside : List ℕ → Bridge → Bridge
  inside slots b = record b {
    context = some (record { kv_cache = paged_cache; slot_mapping = slots });
  }

  forward_runs :
      (layer_idx : Option ℤ) (query key value : Tensor) (scaling : F) (sliding_window : Option ℕ)
      (b : Bridge)
      → query.batch ≡ 1
      → query.is_cuda ≡ true
      → solort_flashinfer_attention_forward x layer_idx query key value scaling sliding_window b
        ≡ (mirror_to_solort_kv layer_idx key value
              >> dispatch x query key value scaling sliding_window)
            b
  unfolding solort_flashinfer_attention_forward
  forward_runs layer_idx query key value scaling sliding_window b single cuda =
      rw (solort_flashinfer_attention_forward, single, cuda) refl

  -- What a forward pass from one bridge leaves, where the tokens' store gave this.
  abbrev Left : Bridge → Result (Unit {0}) × PagedKvCache → Bridge → Type 0
  Left b stored after =
      (after.cache ≡ stored.1)
      × (after.attention_functions ≡ b.attention_functions)
      × (calls after ≡ (if is_ok stored.0 then calls b + 1 else calls b))

  Left-dispatch :
      (query key value : Tensor) (scaling : F) (sliding_window : Option ℕ) (slots : List ℕ)
      (b : Bridge) (stored : Result (Unit {0}) × PagedKvCache)
      → Left b stored
          (((λ (w : Bridge). (stored.0, record (inside slots b) { cache = stored.1 }))
              >> dispatch x query key value scaling sliding_window)
            (inside slots b)).1
  unfolding calls
  Left-dispatch query key value scaling sliding_window slots b (err e, cache) = (refl, refl, refl)
  Left-dispatch query key value scaling sliding_window slots b (ok _, cache) =
      let h =
        dispatch-IsCounted query key value scaling sliding_window
          (record (inside slots b) { cache = cache }) in
      (h.same_cache, h.same_names, h.one_more)

  -- For a query of batch size one on CUDA, in a write context with the paged cache and some slots,
  -- and whatever the kernels do: the forward pass leaves in the KV cache exactly what
  -- store_layer_tokens leaves with those slots and tensors, the context before is restored, also
  -- when it raises, and one call is counted, or none if the store raised.
  pub forward-store_layer_tokens :
      (layer_idx : Option ℤ) (query key value : Tensor) (scaling : F) (sliding_window : Option ℕ)
      (slots : List ℕ) (b : Bridge)
      → query.batch ≡ 1
      → query.is_cuda ≡ true
      → let after =
          (solort_kv_write_context paged_cache
            (some slots)
            (solort_flashinfer_attention_forward x layer_idx query key value scaling sliding_window)
            b).1 in
        let stored = store_layer_tokens layer_idx slots (kv_tensor key) (kv_tensor value) b.cache in
        (after.cache ≡ stored.1)
        × (after.context ≡ b.context)
        × (after.attention_functions ≡ b.attention_functions)
        × (calls after ≡ (if is_ok stored.0 then calls b + 1 else calls b))
  unfolding solort_kv_write_context mirror_to_solort_kv calls
  forward-store_layer_tokens layer_idx query key value scaling sliding_window slots b single cuda =
      let stored = store_layer_tokens layer_idx slots (kv_tensor key) (kv_tensor value) b.cache in
      let runs =
        forward_runs layer_idx query key value scaling sliding_window (inside slots b) single
          cuda in
      let (cache, names, count) : Left b stored
          (solort_flashinfer_attention_forward x layer_idx query key value scaling sliding_window
            (inside slots b)).1 =
        subst (λ (out : Result O × Bridge). Left b stored out.1) (sym runs)
          (Left-dispatch query key value scaling sliding_window slots b stored) in
      (cache, refl, names, count)
