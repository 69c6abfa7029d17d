-- ===== src/Core/Runtime/Construction.antt =====
-- `RuntimeCore.__init__` and `build_default_runtime` of src/solort/core/runtime.py. The environment is
-- a dict; a variable's text and a name that it is compared with are code points.
use solo_rt.Prelude.{
  ℕ, zero, suc, ◌+◌, ◌*◌, Bool, true, false, ◌&&◌, Option, none, some, List, [], ◌∷◌, map, String,
  if◌then◌else◌, ◌==◌, leb, ℤ, pos, negsuc, Result, ok, err, value_error,
}
use solo_rt.Prelude.Errors.{◌>>=◌}
use solo_rt.Prelude.Dict
use solo_rt.Prelude.Dict.{Dict}
use solo_rt.Cache.BlockHash.{Text, codes}
use solo_rt.Cache.KvCache.{Arena, KvCacheConfig, default_config, PagedKvCache, new_cache}
use solo_rt.Cache.PrefixCache.{PrefixCache, same_list, new_prefix_cache}
use solo_rt.Cache.VramManager.{VramBudgetManager, default_budget}
use solo_rt.Core.Session.{SessionManager, new_session_manager}
use solo_rt.Core.Scheduler.{InteractiveScheduler, new_scheduler}
use solo_rt.Core.Metrics.{RuntimeMetrics, new_metrics}
use solo_rt.Core.Tokenizer.{strip}
use solo_rt.Core.Runtime.{RuntimeCore, or_default}

-- `a or make()`
abbrev given_or : {A : Type 0} → Option A → Result A → Result A
given_or none made = made
given_or (some a) made = ok a

-- The arguments of `RuntimeCore`.
pub record RuntimeParts (E : Type 0) : Type 0 where
  pub scheduler : Option InteractiveScheduler
  pub kv_cache : Option PagedKvCache
  pub prefix_cache : Option PrefixCache
  pub executor : Option E
  pub session_manager : Option SessionManager
  pub metrics : Option RuntimeMetrics
  pub vram_manager : Option VramBudgetManager

-- `__init__`, where `attach` is what `attach_kv_cache` does to the executor.
unfoldable pub new_runtime :
    {E : Type 0} → Bool → Arena → (PagedKvCache → E → E) → RuntimeParts E → Result (RuntimeCore E)
new_runtime torch arena attach p = given_or p.scheduler (new_scheduler (pos 16)) >>= λ scheduler.
    given_or p.kv_cache
      (new_cache torch arena (record default_config { num_pages = 1024; page_size = 16 }))
    >>= λ kv_cache.
        given_or p.prefix_cache (new_prefix_cache (pos 16) (pos 128)) >>= λ prefix_cache.
        elim p.executor [
          | none ↦ err value_error
          | some executor ↦ ok (record {
            scheduler = scheduler;
            kv_cache = kv_cache;
            prefix_cache = prefix_cache;
            executor = attach kv_cache executor;
            session_manager = or_default p.session_manager new_session_manager;
            metrics = or_default p.metrics new_metrics;
            vram_manager = or_default p.vram_manager default_budget;
            active_by_session = [];
          })
        ]

abbrev pub Environment : Type 0
Environment = Dict Text

-- `str.lower()` on the letters that become ASCII ones: A to Z, and the Kelvin sign.
abbrev lower_char : ℕ → ℕ
lower_char c = if c == 8490 then b'k' else if leb 65 c && leb c 90 then c + 32 else c

unfoldable pub lower : Text → Text
lower t = map lower_char t

-- `value in {...}`
unfoldable pub is_among : Text → List Text → Bool
is_among value [] = false
is_among value (name ∷ names) = if same_list value name then true else is_among value names

-- The digits of `int(value)`, single underscores between them; what counts as a digit is Unicode's.
unfoldable pub digits_from : (ℕ → Option ℕ) → ℕ → Bool → Text → Option ℕ
digits_from digit read behind_digit [] = if behind_digit then some read else none
digits_from digit read behind_digit (c ∷ cs) =
    let behind_underscore = digits_from digit read false cs in
    elim (digit c) [
      | some v ↦ digits_from digit (10 * read + v) true cs
      | none ↦ if (c == b'_') && behind_digit then behind_underscore else none
    ]

abbrev minus : ℕ → ℤ
minus zero = pos zero
minus (suc n) = negsuc n

abbrev signed : (ℕ → ℤ) → Option ℕ → Result ℤ
signed sign none = err value_error
signed sign (some n) = ok (sign n)

-- `int(value)`
unfoldable pub int_of : (ℕ → Option ℕ) → Text → Result ℤ
unfolding digits_from
int_of digit value = elim (strip value) [
  | [] ↦ err value_error
  | c ∷ cs ↦
      if c == b'-'
      then signed minus (digits_from digit 0 false cs)
      else if c == b'+'
      then signed pos (digits_from digit 0 false cs)
      else signed pos (digits_from digit 0 false (c ∷ cs))
]

-- `_env_int`
unfoldable pub env_int : (ℕ → Option ℕ) → Environment → String → ℤ → Result ℤ
unfolding int_of
env_int digit env name d = elim (Dict.lookup name env) [
  | none ↦ ok d
  | some value ↦ int_of digit value
]

-- `_env_bool`
unfoldable pub env_bool : Environment → String → Bool → Bool
unfolding lower is_among
env_bool env name d = elim (Dict.lookup name env) [
  | none ↦ d
  | some value ↦
      is_among (lower (strip value)) (codes "1" ∷ codes "true" ∷ codes "yes" ∷ codes "on" ∷ [])
]

pub data ExecutorClass : Type 0 where
  paged_qwen transformers_text cuda_graph_qwen3 spec_cuda_graph_qwen3 : ExecutorClass

-- The fields of `TransformersGenerationConfig` that are given; the others keep their defaults.
pub record TransformersGenerationConfig : Type 0 where
  pub model_id : Text
  pub device_map : Text
  pub torch_dtype : Text
  pub enable_thinking : Bool
  pub trust_remote_code : Bool
  pub speculative_draft_model_id : Text
  pub speculative_tokens : ℤ
  pub speculative_draft_device_map : Option Text
  pub attention_backend : Text
  pub graph_max_len : ℤ
  pub decode_chunk : ℤ

abbrev is_positive : ℤ → Bool
is_positive (pos (suc n)) = true
is_positive _ = false

-- The executor's class and its default attention backend, for the name in SOLORT_EXECUTOR.
unfoldable pub choose_executor : (ℕ → Option ℕ) → Environment → Result (ExecutorClass × Text)
unfolding lower is_among env_int
choose_executor digit env =
    let name = lower (strip (or_default (Dict.lookup "SOLORT_EXECUTOR" env) (codes "paged"))) in
    if is_among name (codes "paged" ∷ codes "paged-qwen" ∷ codes "qwen-paged" ∷ [])
    then ok (paged_qwen, codes "flashinfer")
    else if is_among name (codes "transformers" ∷ codes "hf" ∷ codes "qwen" ∷ [])
    then ok (transformers_text, codes "auto")
    else if is_among name (codes "cudagraph" ∷ codes "cuda-graph" ∷ codes "graph" ∷ [])
    then (env_int digit env "SOLORT_SPECULATIVE_TOKENS" (pos 0) >>= λ tokens.
        ok (if is_positive tokens then spec_cuda_graph_qwen3 else cuda_graph_qwen3, codes "sdpa"))
    else err value_error

unfoldable pub generation_config :
    (ℕ → Option ℕ) → Environment → Text → Result TransformersGenerationConfig
unfolding env_int env_bool
generation_config digit env default_backend =
    env_int digit env "SOLORT_SPECULATIVE_TOKENS" (pos 0) >>= λ speculative_tokens.
    env_int digit env "SOLORT_GRAPH_MAX_LEN" (pos 1024) >>= λ graph_max_len.
    env_int digit env "SOLORT_DECODE_CHUNK" (pos 4) >>= λ decode_chunk. ok (record {
      model_id = or_default (Dict.lookup "SOLORT_MODEL_ID" env) (codes "Qwen/Qwen3-4B");
      device_map = or_default (Dict.lookup "SOLORT_DEVICE_MAP" env) (codes "auto");
      torch_dtype = or_default (Dict.lookup "SOLORT_TORCH_DTYPE" env) (codes "auto");
      enable_thinking = env_bool env "SOLORT_ENABLE_THINKING" false;
      trust_remote_code = env_bool env "SOLORT_TRUST_REMOTE_CODE" false;
      speculative_draft_model_id =
          or_default (Dict.lookup "SOLORT_SPECULATIVE_DRAFT_MODEL_ID" env)
            (codes "Qwen/Qwen3-0.6B");
      speculative_tokens = speculative_tokens;
      speculative_draft_device_map = Dict.lookup "SOLORT_SPECULATIVE_DRAFT_DEVICE_MAP" env;
      attention_backend = or_default (Dict.lookup "SOLORT_ATTENTION_BACKEND" env) default_backend;
      graph_max_len = graph_max_len;
      decode_chunk = decode_chunk;
    })

-- A count that the page allocator accepts only if it is positive.
abbrev count_of : ℤ → Result ℕ
count_of (pos n) = ok n
count_of (negsuc n) = err value_error

-- What is built outside this file: an executor from its class and configuration, with the loading
-- of its models; the KV shape of its `kv_cache_config`, if it has that method; `attach_kv_cache`.
pub record Factory (E : Type 0) : Type 0 where
  pub make : ExecutorClass → TransformersGenerationConfig → Result E
  pub kv_shape : E → Option KvCacheConfig
  pub attach : PagedKvCache → E → E
  pub torch : Bool
  pub arena : Arena
  pub digit : ℕ → Option ℕ

-- `_build_runtime_kv_cache`
unfoldable pub build_runtime_kv_cache :
    {E : Type 0} → Factory E → Environment → E → Result PagedKvCache
unfolding env_int env_bool
build_runtime_kv_cache f env executor =
    env_int f.digit env "SOLORT_KV_NUM_PAGES" (pos 1024) >>= λ num_pages.
    env_int f.digit env "SOLORT_KV_PAGE_SIZE" (pos 16) >>= λ page_size.
    count_of num_pages >>= λ pages. count_of page_size >>= λ size.
    new_cache f.torch f.arena (record (or_default (f.kv_shape executor) default_config) {
      num_pages = pages;
      page_size = size;
      allocate_tensors = env_bool env "SOLORT_KV_TENSOR_STORAGE" false;
    })

unfoldable pub build_default_runtime :
    {E : Type 0} → Factory E → Environment → Result (RuntimeCore E)
unfolding choose_executor generation_config build_runtime_kv_cache new_runtime
build_default_runtime f env = choose_executor f.digit env >>= λ chosen.
    generation_config f.digit env chosen.1 >>= λ config. f.make chosen.0 config >>= λ executor.
    build_runtime_kv_cache f env executor >>= λ kv_cache.
    new_runtime f.torch f.arena f.attach (record {
      scheduler = none;
      kv_cache = some kv_cache;
      prefix_cache = none;
      executor = some executor;
      session_manager = none;
      metrics = none;
      vram_manager = none;
    })
