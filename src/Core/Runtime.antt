-- ===== src/Core/Runtime.antt =====
-- src/solort/core/runtime.py: `RuntimeCore`'s state, the executor it drives, and how a request
-- enters. The modules below run the batches and finish the requests. What `uuid4` and the clock give is an argument; a reference to a
-- sequence or a session is its id.
pub mod Execute
pub mod Finish
pub mod Requests
pub mod Construction
pub mod Snapshot
use solo_rt.Prelude.{
  ℕ, zero, suc, ◌+◌, Bool, true, false, Option, none, some, List, [], ◌∷◌, ◌++◌, String,
  if◌then◌else◌, length, ℤ, pos, Result, ok, err, type_error, key_error,
}
use solo_rt.Prelude.Exec.{Exec}
use solo_rt.Prelude.Dict
use solo_rt.Prelude.Dict.{Dict}
use solo_rt.Cache.BlockHash.{Text}
use solo_rt.Cache.KvCache.{PagedKvCache, Held}
use solo_rt.Cache.PrefixCache.{PrefixCache, PrefixMatch, match_prefix}
use solo_rt.Cache.VramManager.{VramBudgetManager}
use solo_rt.Core.Sequence.{
  Sequence, Metadata, Decimal, TaskKind, waiting, foreground_prefill, post_init,
}
use solo_rt.Core.Batch.{Batch}
use solo_rt.Core.Session
use solo_rt.Core.Session.{Message, Session, SessionManager}
use solo_rt.Core.Scheduler
use solo_rt.Core.Scheduler.{InteractiveScheduler}
use solo_rt.Core.Metrics
use solo_rt.Core.Metrics.{RuntimeMetrics}
use solo_rt.Core.Tokenizer.{tokenize_messages}

-- src/solort/model/sampler.py
pub record SampleResult : Type 0 where
  pub token_id : ℕ
  pub text : Text
  pub is_last : Bool

-- What `forward_decode` may return.
pub data Decoded : Type 0 where
  one : SampleResult → Decoded
  many : List SampleResult → Decoded
  other : Decoded

-- `ModelExecutor`: its class attributes, and its methods on its own state. A method is given the
-- batch and the batch's sequence, and may extend the sequence's block table and write the KV cache.
pub record ModelExecutor (E : Type 0) : Type 0 where
  pub uses_paged_kv : Bool
  pub supports_prefix_cache : Bool
  pub tokenizer : Option (List Message → Bool → List ℕ)
  pub forward_prefill : Batch → Sequence → Exec (Held × E) Unit
  pub forward_decode : Batch → Sequence → Exec (Held × E) Decoded

pub record RuntimeCore (E : Type 0) : Type 0 where
  pub scheduler : InteractiveScheduler
  pub kv_cache : PagedKvCache
  pub prefix_cache : PrefixCache
  pub executor : E
  pub session_manager : SessionManager
  pub metrics : RuntimeMetrics
  pub vram_manager : VramBudgetManager
  pub active_by_session : Dict String

pub record ChatRequest : Type 0 where
  pub model_id : String
  pub messages : List Message
  pub max_new_tokens : ℕ
  pub session_id : Option String
  pub task_kind : TaskKind
  pub temperature : Decimal
  pub top_p : Option Decimal
  pub top_k : Option ℤ
  pub repetition_penalty : Option Decimal
  pub max_repeated_token_run : Option ℤ
  pub enable_thinking : Option Bool

-- `value if value is not None else d`
abbrev pub or_default {ℓ} : {A : Type ℓ} → Option A → A → A
or_default none d = d
or_default (some value) d = value

unfoldable pub metadata_of : ChatRequest → List Message → Metadata
metadata_of q context = record {
  model_id = q.model_id;
  messages = context;
  request_messages = q.messages;
  response_text = [];
  response_appended = false;
  temperature = q.temperature;
  top_p = or_default q.top_p (record { digits = pos 8; places = 1 });
  top_k = or_default q.top_k (pos 20);
  repetition_penalty = or_default q.repetition_penalty (record { digits = pos 108; places = 2 });
  max_repeated_token_run = or_default q.max_repeated_token_run (pos 16);
  enable_thinking = or_default q.enable_thinking false;
}

-- `_tokenize_for_executor`
unfoldable pub tokenize_for_executor :
    {E : Type 0} → (List ℕ → List ℕ) → ModelExecutor E → List Message → Bool → Result (List ℕ)
tokenize_for_executor digest x messages thinking = elim x.tokenizer [
  | none ↦ tokenize_messages digest messages
  | some tokenizer ↦ ok (tokenizer messages thinking)
]

unfoldable pub match_if_supported :
    {E : Type 0} → ModelExecutor E → ℕ → List ℕ → PrefixCache → PrefixMatch × PrefixCache
match_if_supported x now input_ids p =
    if x.supports_prefix_cache
    then match_prefix now input_ids p
    else (record { matched_tokens = 0; pages = []; entry = none }, p)

-- The sequence that `add_request` makes.
unfoldable pub sequence_for :
    String → ℕ → String → ChatRequest → List Message → List ℕ → PrefixMatch → Sequence
sequence_for seq_id now session_id q context input_ids m = post_init (record {
  seq_id = seq_id;
  session_id = session_id;
  input_ids = input_ids;
  max_new_tokens = q.max_new_tokens;
  output_ids = [];
  status = waiting;
  priority = foreground_prefill;
  task_kind = q.task_kind;
  num_prompt_tokens = 0;
  num_cached_tokens = m.matched_tokens;
  num_scheduled_tokens = 0;
  stop_token_ids = [];
  block_table = m.pages;
  kv_precision = "fp16";
  cache_handle = m.entry;
  metadata = metadata_of q context;
  created_ts = now;
  last_active_ts = now;
})

-- `add_request` behind the tokenization; `append_messages` left these sessions.
unfoldable pub enter :
    {E : Type 0}
    → ModelExecutor E
    → String
    → ℕ
    → ChatRequest
    → Session
    → List ℕ
    → SessionManager
    → RuntimeCore E
    → Sequence × RuntimeCore E
unfolding metadata_of match_if_supported sequence_for
enter x seq_id now q session input_ids appended r =
    let context = session.messages ++ q.messages in
    let (matched, prefixes) = match_if_supported x now input_ids r.prefix_cache in
    let s = sequence_for seq_id now session.session_id q context input_ids matched in
    (
      s,
      record r {
        session_manager = Session.set_active session.session_id (some seq_id) appended;
        prefix_cache = prefixes;
        scheduler = Scheduler.add_sequence s r.scheduler;
        metrics = Metrics.start_request now seq_id r.metrics;
        active_by_session = Dict.insert session.session_id seq_id r.active_by_session;
      },
    )

-- `add_request`. `fresh` is the id for a session that the request does not name.
unfoldable pub add_request :
    {E : Type 0}
    → (List ℕ → List ℕ)
    → ModelExecutor E
    → String
    → String
    → ℕ
    → ChatRequest
    → Exec (RuntimeCore E) Sequence
unfolding enter tokenize_for_executor
add_request digest x fresh seq_id now q r =
    let (session, sessions) =
      Session.get_or_create fresh q.model_id q.session_id r.session_manager in
    elim (Session.append_messages session.session_id q.messages sessions) [
      | err e ↦ (err e, record r { session_manager = sessions })
      | ok appended ↦
          let context = session.messages ++ q.messages in
          elim (tokenize_for_executor digest x context (or_default q.enable_thinking false)) [
            | err e ↦ (err e, record r { session_manager = appended })
            | ok input_ids ↦
                let (s, after) = enter x seq_id now q session input_ids appended r in (ok s, after)
          ]
    ]
