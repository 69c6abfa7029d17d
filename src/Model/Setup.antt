-- ===== src/Model/Setup.antt =====
-- The set-up of `TransformersTextExecutor` in src/solort/model/executor.py: the KV cache that fits its
-- model, the prompt of a chat, the draft model, and its snapshots. Models and tokenizers are arguments.
pub mod Vocabulary
use solo_rt.Prelude.{
  ℕ, zero, suc, ◌/◌, ◌==◌, Bool, true, false, ◌&&◌, ◌||◌, not, Option, none, some, List, [], ◌∷◌,
  ◌++◌, String, str_eq, if◌then◌else◌, ℤ, pos, negsuc, Error, Result, ok, err, type_error,
  value_error, zero_division_error,
}
use solo_rt.Prelude.Exec.{Exec, ◌>>=◌, pure, raise}
use solo_rt.Cache.BlockHash.{Text, codes}
use solo_rt.Cache.KvCache.{KvCacheConfig}
use solo_rt.Core.Session.{Message}
use solo_rt.Core.Tokenizer.{render, join_lines}
use solo_rt.Prelude.{map}
use solo_rt.Backend.FlashInfer.{
  Bridge, ModelKwargs, FlashInferAttentionStats, model_kwargs, attention_backend_snapshot,
}

-- The fields of a model's configuration that are read.
pub record ModelConfig : Type 0 where
  pub num_hidden_layers : ℕ
  pub num_key_value_heads : ℕ
  pub num_attention_heads : ℕ
  pub hidden_size : ℕ
  pub head_dim : Option ℕ

-- `_dtype_name`, of the name that the dtype has in torch; a missing dtype counts as float16.
unfoldable pub dtype_name : Option String → String
dtype_name none = "fp16"
dtype_name (some name) =
    if str_eq name "float16"
    then "fp16"
    else if str_eq name "bfloat16"
    then "bf16"
    else if str_eq name "float32"
    then "fp32"
    else name

-- `kv_cache_config`. The quotient is computed even if the model names its head dimension.
unfoldable pub kv_cache_config :
    ModelConfig → Option String → String → ℕ → ℕ → Bool → Result KvCacheConfig
unfolding dtype_name
kv_cache_config m dtype device num_pages page_size allocate_tensors =
    if m.num_attention_heads == 0
    then err zero_division_error
    else ok (record {
      num_layers = m.num_hidden_layers;
      num_pages = num_pages;
      page_size = page_size;
      num_kv_heads = m.num_key_value_heads;
      head_dim = elim m.head_dim [ none ↦ m.hidden_size / m.num_attention_heads | some n ↦ n ];
      dtype = dtype_name dtype;
      device = device;
      layout = "NHD";
      allocate_tensors = allocate_tensors;
    })

-- A tokenizer: its chat template, with `enable_thinking` or without it, and its encoding of a text.
pub record ChatTokenizer : Type 0 where
  pub apply_chat_template : List Message → Option Bool → Result (List ℕ)
  pub encode : Text → Result (List ℕ)
  pub eos_token_id : Option ℕ

-- What the handlers of `_chat_token_ids` do with what the first call raised.
unfoldable pub without_template : ChatTokenizer → List Message → Error → Result (List ℕ)
without_template t messages type_error = t.apply_chat_template messages none
without_template t messages value_error = t.encode (join_lines (map render messages))
without_template t messages e = err e

-- `_chat_token_ids`, where `config` is the configuration's `enable_thinking`.
unfoldable pub chat_token_ids : ChatTokenizer → Bool → List Message → Option Bool → Result (List ℕ)
unfolding without_template
chat_token_ids t config messages enable_thinking =
    let thinking : Bool = elim enable_thinking [ none ↦ config | some b ↦ b ] in
    elim (t.apply_chat_template messages (some thinking)) [
      | ok ids ↦ ok ids
      | err e ↦ without_template t messages e
    ]

-- `_eos_token_id`
unfoldable pub eos_token_id : ChatTokenizer → ℕ
eos_token_id t = elim t.eos_token_id [ none ↦ 0 | some id ↦ id ]

-- `AutoModelForCausalLM.from_pretrained` of a model's name, with the dtype under the key "dtype" or
-- "torch_dtype"; the size of a model's vocabulary, if it has one.
pub record Hub (M : Type 0) : Type 0 where
  pub from_pretrained : String → Bool → ModelKwargs → Result M
  pub vocab_size : M → Option ℕ
  pub has_dtype : String → Bool

module _ {M : Type 0} (hub : Hub M) where
  -- A load, and again with the older key after a `TypeError`.
  unfoldable pub load : String → ModelKwargs → Result M
  load model_id kwargs = elim (hub.from_pretrained model_id false kwargs) [
    | ok model ↦ ok model
    | err type_error ↦ hub.from_pretrained model_id true kwargs
    | err e ↦ err e
  ]

  -- `_draft_vocab_compatible`, without its warning.
  unfoldable pub draft_vocab_compatible : M → M → Bool
  draft_vocab_compatible target draft = elim (hub.vocab_size target) [
    | none ↦ true
    | some n ↦ elim (hub.vocab_size draft) [ none ↦ true | some m ↦ n == m ]
  ]

  -- The device map of the draft model, if it has one of its own.
  unfoldable pub on_device : Option String → ModelKwargs → ModelKwargs
  on_device none kwargs = kwargs
  on_device (some device_map) kwargs = record kwargs {
    device_map = if str_eq device_map "cpu" then none else some device_map;
  }

  abbrev if_compatible : M → Result M → Result (Option M)
  if_compatible target (err e) = err e
  if_compatible target (ok draft) =
      ok (if draft_vocab_compatible target draft then some draft else none)

  -- Whether the configuration asks for a draft model.
  abbrev wants_draft : Option String → ℤ → Bool
  wants_draft (some name) (pos (suc n)) = not (str_eq name "")
  wants_draft _ _ = false

  abbrev name_of : Option String → String
  name_of none = ""
  name_of (some name) = name

  -- `_load_draft_model`
  unfoldable pub load_draft_model :
      String → String → String → Option String → ℤ → Option String → M → Exec Bridge (Option M)
  unfolding load draft_vocab_compatible on_device model_kwargs
  load_draft_model attention torch_dtype device_map draft_id tokens draft_device_map target =
      if wants_draft draft_id tokens
      then (model_kwargs hub.has_dtype attention torch_dtype device_map >>= λ kwargs b.
          (if_compatible target (load (name_of draft_id) (on_device draft_device_map kwargs)), b))
      else pure none

  -- The model of `__init__`.
  unfoldable pub load_model : String → String → String → String → Exec Bridge M
  unfolding load model_kwargs
  load_model model_id attention torch_dtype device_map =
      model_kwargs hub.has_dtype attention torch_dtype device_map >>= λ kwargs b.
      (load model_id kwargs, b)

-- The counters of an executor; a rate is the accepted tokens over the proposed ones.
pub record ExecutorSnapshot : Type 0 where
  pub attention_backend : String
  pub speculative_enabled : Bool
  pub speculative_tokens : ℤ
  pub speculative_proposed_tokens : ℕ
  pub speculative_accepted_tokens : ℕ
  pub speculative_rejected_tokens : ℕ
  pub speculative_acceptance_rate : Option (ℕ × ℕ)
  pub speculative_draft_forward_tokens : ℕ
  pub attention_stats : Option FlashInferAttentionStats

-- `snapshot`, of the counters proposed, accepted, rejected and fed to the draft model.
unfoldable pub snapshot : String → Bool → ℤ → ℕ → ℕ → ℕ → ℕ → Bridge → ExecutorSnapshot
unfolding attention_backend_snapshot
snapshot attention has_draft tokens proposed accepted rejected fed b = record {
  attention_backend = attention;
  speculative_enabled = has_draft;
  speculative_tokens = tokens;
  speculative_proposed_tokens = proposed;
  speculative_accepted_tokens = accepted;
  speculative_rejected_tokens = rejected;
  speculative_acceptance_rate = if proposed == 0 then none else some (accepted, proposed);
  speculative_draft_forward_tokens = fed;
  attention_stats = attention_backend_snapshot attention b;
}

-- What `PagedQwenExecutor.snapshot` adds.
pub record PagedSnapshot : Type 0 where
  pub executor : ExecutorSnapshot
  pub target_model_id : String
  pub cache_boundary : String
  pub paged_executor_status : String

unfoldable pub paged_snapshot : ExecutorSnapshot → String → Bool → PagedSnapshot
paged_snapshot executor model_id mirrored = record {
  executor = executor;
  target_model_id = model_id;
  cache_boundary =
      if mirrored
      then "solort-page-metadata + solort-kv-mirror + hf-past-key-values"
      else "solort-page-metadata + hf-past-key-values";
  paged_executor_status =
      if mirrored
      then "FlashInfer HF attention bridge enabled; SoloRT KV mirror enabled; tensor-backed paged runner pending"
      else "FlashInfer HF attention bridge enabled; tensor-backed paged runner pending";
}
