-- ===== src/Backend/FlashInfer.antt =====
-- src/solort/backends/transformers_flashinfer.py, and the methods of src/solort/model/executor.py that
-- use it. The kernels of FlashInfer and torch are arguments; the module's globals are the state
-- `Bridge`, with the KV cache that the executor hands over.
pub mod Masks
pub mod Heads
pub mod Calls
mod Examples
use solo_rt.Prelude.{
  ℕ, zero, suc, ◌+◌, ◌*◌, ◌/◌, ◌%◌, Bool, true, false, not, Option, none, some, List, [], ◌∷◌, ◌++◌,
  map, String, str_eq, if◌then◌else◌, leb, ◌==◌, length, get_or, replicate, range_from, ℤ, pos,
  negsuc, Result, ok, err, runtime_error, zero_division_error, attribute_error, ◌||◌,
}
use mathlib.Core.List.{flatten}
use solo_rt.Prelude.Exec.{Exec, pure, raise, ◌>>=◌, ◌>>◌}
use solo_rt.Cache.KvCache.{Row, PagedKvCache}
use solo_rt.Cache.KvCache.Mirror.{KvTensor, store_layer_tokens}

abbrev pub attention_name : String
attention_name = "solort_flashinfer"

pub record FlashInferAttentionStats : Type 0 where
  pub prefill_calls : ℕ
  pub decode_calls : ℕ
  pub fallback_calls : ℕ

-- What the context's "kv_cache" may be: nothing, an object that stores no layer's tokens, or the cache.
pub data KvTarget : Type 0 where
  no_cache other_object paged_cache : KvTarget

pub record KvContext : Type 0 where
  pub kv_cache : KvTarget
  pub slot_mapping : List ℕ

-- `_STATS`, `_REGISTERED` and `_KV_CONTEXT`, the names that Transformers knows, and the KV cache.
pub record Bridge : Type 0 where
  pub stats : FlashInferAttentionStats
  pub registered : Bool
  pub context : Option KvContext
  pub attention_functions : List String
  pub cache : PagedKvCache

-- A tensor `[batch, heads, tokens, head_dim]`: its shape, and the heads of its first batch element,
-- each with a row for every token.
pub record Tensor : Type 0 where
  pub batch : ℕ
  pub is_cuda : Bool
  pub tokens : ℕ
  pub head_dim : ℕ
  pub heads : List (List Row)

-- `slot_mapping or []`
abbrev or_empty : Option (List ℕ) → List ℕ
or_empty none = []
or_empty (some slots) = slots

-- `solort_kv_write_context(kv_cache, slot_mapping)`, around what runs in it.
unfoldable pub solort_kv_write_context :
    {A : Type 0} → KvTarget → Option (List ℕ) → Exec Bridge A → Exec Bridge A
solort_kv_write_context target slot_mapping body b =
    let (result, after) = body (record b {
      context = some (record { kv_cache = target; slot_mapping = or_empty slot_mapping });
    }) in
    (result, record after { context = b.context })

-- `register_solort_flashinfer_attention`
unfoldable pub register_solort_flashinfer_attention : Exec Bridge Unit
register_solort_flashinfer_attention b = if b.registered then (ok tt, b) else (
  ok tt,
  record b { registered = true; attention_functions = attention_name ∷ b.attention_functions },
)

-- `flashinfer_attention_snapshot`, without the constant name.
unfoldable pub flashinfer_attention_snapshot : Bridge → FlashInferAttentionStats
flashinfer_attention_snapshot b = b.stats

-- What `getattr` finds in the package `flashinfer`: in its modules `decode` and `prefill`, and itself.
pub record FlashInferPackage (D P : Type 0) : Type 0 where
  pub decode_module_fn : Option D
  pub decode_fn : Option D
  pub prefill_module_fn : Option P
  pub prefill_fn : Option P

abbrev or_else : {A : Type 0} → Option A → Option A → Option A
or_else (some a) other = some a
or_else none other = other

-- `_flashinfer_attention_fns`, where there is no package if its import fails.
unfoldable pub flashinfer_attention_fns :
    {D P : Type 0} → Option (FlashInferPackage D P) → Option D × Option P
flashinfer_attention_fns none = (none, none)
flashinfer_attention_fns (some p) =
    (or_else p.decode_module_fn p.decode_fn, or_else p.prefill_module_fn p.prefill_fn)

-- `[0].transpose(0, 1)` : for each token the rows of all heads.
unfoldable pub nhd : Tensor → List (List Row)
nhd t = map (λ i. map (λ head. get_or head i []) t.heads) (range_from 0 t.tokens)

-- The same tensor as `store_layer_tokens` reads it.
unfoldable pub kv_tensor : Tensor → KvTensor
unfolding nhd
kv_tensor t = record {
  batch = t.batch;
  heads = length t.heads;
  head_dim = t.head_dim;
  rows = map flatten (nhd t);
}

-- `_mirror_to_solort_kv`, of a module with this layer index.
unfoldable pub mirror_to_solort_kv : Option ℤ → Tensor → Tensor → Exec Bridge Unit
unfolding kv_tensor
mirror_to_solort_kv layer_idx key value b = elim b.context [
  | none ↦ (ok tt, b)
  | some context ↦ elim context.kv_cache [
    | no_cache ↦ (ok tt, b)
    | other_object ↦ (ok tt, b)
    | paged_cache ↦
        let (result, cache) =
          store_layer_tokens layer_idx context.slot_mapping (kv_tensor key) (kv_tensor value)
            b.cache in
        (result, record b { cache = cache })
  ]
]

-- `repeat_interleave(groups, dim=1)`
unfoldable pub repeat_interleave : {A : Type 0} → ℕ → List A → List A
repeat_interleave groups [] = []
repeat_interleave groups (x ∷ xs) = replicate groups x ++ repeat_interleave groups xs

-- The heads of a key or value, one for each of the query's.
unfoldable pub expand_heads : ℕ → Tensor → Result Tensor
unfolding repeat_interleave
expand_heads query_heads t =
    let n = length t.heads in
    if query_heads == n
    then ok t
    else if n == 0
    then err zero_division_error
    else if not (query_heads % n == 0)
    then err runtime_error
    else ok (record t { heads = repeat_interleave (query_heads / n) t.heads })

-- The mask where the query is the last part of the sequence: entry (q, k) is k <= q + (kv_len - q_len),
-- with the difference on the other side, since it may be negative.
unfoldable pub right_aligned_mask : ℕ → ℕ → List (List Bool)
right_aligned_mask q_len kv_len =
    map (λ q_idx. map (λ k_idx. leb (k_idx + q_len) (q_idx + kv_len)) (range_from 0 kv_len))
      (range_from 0 q_len)

-- The arguments of torch's `scaled_dot_product_attention`; `true` in a mask is 0, `false` is -inf.
pub record SdpaCall (F : Type 0) : Type 0 where
  pub query : Tensor
  pub key : Tensor
  pub value : Tensor
  pub attn_mask : Option (List (List Bool))
  pub is_causal : Bool
  pub scale : F

unfoldable pub sdpa_call : {F : Type 0} → Tensor → Tensor → Tensor → F → Bool → SdpaCall F
unfolding right_aligned_mask
sdpa_call query key value scale causal =
    let square = query.tokens == key.tokens in
    record {
      query = query;
      key = key;
      value = value;
      attn_mask =
          if causal
          then (if square then none else some (right_aligned_mask query.tokens key.tokens))
          else none;
      is_causal = if causal then square else false;
      scale = scale;
    }

-- Python's truth of `sliding_window`.
unfoldable pub window_left : Option ℕ → ℤ
window_left none = negsuc 0
window_left (some zero) = negsuc 0
window_left (some (suc n)) = pos (suc n)

-- What the module calls: the single-request kernels, which may raise, torch, and the layout changes
-- of their outputs.
pub record Kernels (F O : Type 0) : Type 0 where
  pub flashinfer : Option (
      FlashInferPackage
        (List Row → List (List Row) → List (List Row) → ℤ → F → Result O)
        (List (List Row) → List (List Row) → List (List Row) → ℤ → F → Result O))
  pub sdpa : SdpaCall F → Result O
  pub unsqueeze : O → O
  pub transpose : O → O

module _ {F O : Type 0} (x : Kernels F O) where
  count_fallback : Bridge → Bridge
  count_fallback b = record b {
    stats = record b.stats { fallback_calls = b.stats.fallback_calls + 1 };
  }

  -- The call of torch, on the keys for each of the query's heads.
  unfoldable pub attend : Tensor → Tensor → F → Bool → Result Tensor → Result O
  unfolding sdpa_call
  attend query value scaling causal (err e) = err e
  attend query value scaling causal (ok key) =
      elim (x.sdpa (sdpa_call query key value scaling causal)) [
        | err e ↦ err e
        | ok output ↦ ok (x.transpose output)
      ]

  -- `_torch_attention_fallback`
  unfoldable pub torch_attention_fallback : Tensor → Tensor → Tensor → F → Bool → Exec Bridge O
  unfolding expand_heads attend count_fallback
  torch_attention_fallback query key value scaling causal b =
      let groups = length query.heads / length key.heads in
      let values : Tensor = record value {
        heads =
            if length query.heads == length key.heads
            then value.heads
            else repeat_interleave groups value.heads;
      } in
      (attend query values scaling causal (expand_heads (length query.heads) key), count_fallback b)

  count_decode : Bridge → Bridge
  count_decode b = record b { stats = record b.stats { decode_calls = b.stats.decode_calls + 1 } }

  count_prefill : Bridge → Bridge
  count_prefill b = record b {
    stats = record b.stats { prefill_calls = b.stats.prefill_calls + 1 };
  }

  -- A kernel's output, or the fallback if there is no kernel or it raised.
  unfoldable pub kernel_or :
      Option (Result O) → (Bridge → Bridge) → (O → O) → Exec Bridge O → Exec Bridge O
  kernel_or none counted layout fallback b = fallback b
  kernel_or (some (err e)) counted layout fallback b = fallback b
  kernel_or (some (ok output)) counted layout fallback b = (ok (layout output), counted b)

  -- The dispatch behind the mirroring.
  unfoldable pub dispatch : Tensor → Tensor → Tensor → F → Option ℕ → Exec Bridge O
  unfolding torch_attention_fallback kernel_or flashinfer_attention_fns nhd window_left count_decode
      count_prefill
  dispatch query key value scaling sliding_window =
      let (decode_fn, prefill_fn) = flashinfer_attention_fns x.flashinfer in
      let w = window_left sliding_window in
      if query.tokens == 1
      then kernel_or
          (elim decode_fn [
            | none ↦ none
            | some fn ↦ some (fn (get_or (nhd query) 0 []) (nhd key) (nhd value) w scaling)
          ])
          count_decode (λ output. x.unsqueeze (x.unsqueeze output))
          (torch_attention_fallback query key value scaling false)
      else kernel_or
          (elim prefill_fn [
            | none ↦ none
            | some fn ↦ some (fn (nhd query) (nhd key) (nhd value) w scaling)
          ])
          count_prefill x.unsqueeze (torch_attention_fallback query key value scaling true)

  unfoldable pub solort_flashinfer_attention_forward :
      Option ℤ → Tensor → Tensor → Tensor → F → Option ℕ → Exec Bridge O
  unfolding mirror_to_solort_kv dispatch
  solort_flashinfer_attention_forward layer_idx query key value scaling sliding_window =
      if not (query.batch == 1)
      then raise runtime_error
      else if not query.is_cuda
      then raise runtime_error
      else (mirror_to_solort_kv layer_idx key value
          >> dispatch query key value scaling sliding_window)

-- `_kv_write_context` of an executor with this attention, around what runs in it.
unfoldable pub kv_write_context :
    {A : Type 0} → String → KvTarget → Option (List ℕ) → Exec Bridge A → Exec Bridge A
unfolding solort_kv_write_context
kv_write_context attention kv_cache slot_mapping body =
    if str_eq attention "flashinfer"
    then solort_kv_write_context kv_cache slot_mapping body
    else body

-- The keyword arguments of `from_pretrained`; a dtype is its name in torch.
pub record ModelKwargs : Type 0 where
  pub attn_implementation : Option String
  pub dtype : String
  pub device_map : Option String

-- The attention that goes to Transformers under its own name.
abbrev is_builtin : String → Bool
is_builtin attention =
    if str_eq attention "eager"
    then true
    else if str_eq attention "sdpa"
    then true
    else if str_eq attention "flash_attention_2"
    then true
    else str_eq attention "flex_attention"

-- `_model_kwargs`, where torch has the dtypes of these names.
unfoldable pub model_kwargs : (String → Bool) → String → String → String → Exec Bridge ModelKwargs
unfolding register_solort_flashinfer_attention
model_kwargs has_dtype attention torch_dtype device_map b =
    let flashinfer = str_eq attention "flashinfer" in
    (
      if str_eq torch_dtype "auto" || has_dtype torch_dtype
          then ok (record {
            attn_implementation =
                if flashinfer
                then some attention_name
                else if is_builtin attention
                then some attention
                else none;
            dtype = torch_dtype;
            device_map = if str_eq device_map "cpu" then none else some device_map;
          })
          else err attribute_error,
      if flashinfer then (register_solort_flashinfer_attention b).1 else b,
    )

-- `_attention_backend_snapshot`
unfoldable pub attention_backend_snapshot : String → Bridge → Option FlashInferAttentionStats
unfolding flashinfer_attention_snapshot
attention_backend_snapshot attention b =
    if str_eq attention "flashinfer" then some (flashinfer_attention_snapshot b) else none
