-- ===== src/Core/Examples.antt =====
-- Tests on one request with a prompt of three tokens.
use solo_rt.Prelude.{
  ℕ, ap, ◌+◌, ◌-◌, ◌≤◌, ◌<◌, ◌≡◌, ◌⊎◌, refl, true, false, Option, none, some, List, [], ◌∷◌, ◌++◌,
  str_eq, if◌then◌else◌, length, drop, pos, ok, arith,
}
use mathlib.Core.List.{flatten}
use solo_rt.Prelude.Dict
use solo_rt.Prelude.Sort.{All, here, there, sort_by}
use solo_rt.Cache.BlockHash.{Text}
use solo_rt.Cache.PageAllocator.{PageAllocator, new_allocator}
use solo_rt.Cache.PageAllocator.Invariant.{new_allocator-IsValid}
use solo_rt.Cache.KvCache.{PagedKvCache, default_config, pages_required}
use solo_rt.Cache.KvCache.Capacity.{IsCache}
use solo_rt.Cache.PrefixCache.{PrefixCache, no_entry}
use solo_rt.Cache.VramManager.{default_budget}
use solo_rt.Core.Sequence.{
  Sequence, Metadata, waiting, running, foreground, foreground_prefill, foreground_decode, prefill,
  is_terminal, is_prefill_complete, remaining_prefill_tokens,
}
use solo_rt.Core.Batch.{Batch}
use solo_rt.Core.Session
use solo_rt.Core.Session.{Message, Session, SessionManager, transcript, append-get_or_create}
use solo_rt.Core.Scheduler
use solo_rt.Core.Scheduler.{
  InteractiveScheduler, select_next_sequence, build_next_batch, comes_first, chunk_size,
  effective_priority,
}
use solo_rt.Core.Scheduler.Order.{IsCandidate, IsNext, select-IsNext, decode_first}
use solo_rt.Core.Scheduler.Queue.{IsQueue, build_next_batch-total}
use solo_rt.Core.Scheduler.Prefill.{prefill_run, prefill_run_lem}
use solo_rt.Core.Metrics.{new_metrics}
use solo_rt.Core.Metrics.Laws.{
  started, token, done, handle_all, tokens, handle_all-tokens, AreFresh, IsFresh, last,
}
use solo_rt.Core.Tokenizer.{tokenize_messages}
use solo_rt.Core.Tokenizer.Prompts.{Tokenizes, tokenize_messages_lem}
use solo_rt.Core.Runtime.{RuntimeCore, ModelExecutor, SampleResult, one}
use solo_rt.Core.Runtime.Execute.{take_samples, prepare, with_metadata, execute_batch}
use solo_rt.Core.Runtime.Execute.Tokens.{IsBounded, take_samples-IsBounded, Adds, take_samples-Adds}
use solo_rt.Core.Runtime.Execute.Pages.{prepare_lem, pages_of, kv_after, runtime_after}
use solo_rt.Core.Runtime.Finish.{
  append_assistant_response, assistant, cancel_request, finish_sequence, stream_round, over,
}
use solo_rt.Core.Runtime.Finish.Response.{reply_once}
use solo_rt.Core.Runtime.Finish.Stream.{cancel_stops, finish_keeps_pages}

abbrev hello : Text
hello = b'h' ∷ b'i' ∷ []

abbrev pub said : Message
said = record { role = b'u' ∷ []; content = hello }

abbrev options : Metadata
options = record {
  model_id = "m";
  messages = said ∷ [];
  request_messages = said ∷ [];
  response_text = hello;
  response_appended = false;
  temperature = record { digits = pos 1; places = 0 };
  top_p = record { digits = pos 8; places = 1 };
  top_k = pos 20;
  repetition_penalty = record { digits = pos 108; places = 2 };
  max_repeated_token_run = pos 16;
  enable_thinking = false;
}

-- The prompt is not processed yet.
abbrev fresh : Sequence
fresh = record {
  seq_id = "req_1";
  session_id = "sess_1";
  input_ids = 5 ∷ 6 ∷ 7 ∷ [];
  max_new_tokens = 2;
  output_ids = [];
  status = waiting;
  priority = foreground_prefill;
  task_kind = foreground;
  num_prompt_tokens = 3;
  num_cached_tokens = 0;
  num_scheduled_tokens = 0;
  stop_token_ids = [];
  block_table = [];
  kv_precision = "fp16";
  cache_handle = none;
  metadata = options;
  created_ts = 1;
  last_active_ts = 1;
}

-- The prompt is processed.
abbrev ready : Sequence
ready = record fresh { num_scheduled_tokens = 3; status = running }

abbrev queue_of : Sequence → InteractiveScheduler
queue_of q = record {
  max_prefill_chunk_tokens = 2;
  sequences = ("req_1", q) ∷ [];
  order = "req_1" ∷ [];
}

abbrev pub sample : ℕ → SampleResult
sample t = record { token_id = t; text = hello; is_last = false }

room : IsBounded ready
unfolding IsBounded is_terminal
room = (omega arith, λ e. omega arith)

take_samples-IsBounded_example :
    IsBounded (take_samples 4 (sample 1 ∷ sample 2 ∷ sample 3 ∷ []) ready new_metrics).1
take_samples-IsBounded_example =
    take_samples-IsBounded 4 (sample 1 ∷ sample 2 ∷ sample 3 ∷ []) ready new_metrics room

take_samples-Adds_example :
    Adds ready new_metrics (take_samples 4 (sample 1 ∷ sample 2 ∷ sample 3 ∷ []) ready new_metrics)
take_samples-Adds_example =
    take_samples-Adds 4 (sample 1 ∷ sample 2 ∷ sample 3 ∷ []) ready new_metrics

prefill_run_lem_example :
    let (chunks, last) = prefill_run 9 2 none 3 fresh in
    (is_prefill_complete last ≡ true)
    × (flatten chunks ≡ drop (fresh.num_cached_tokens + fresh.num_scheduled_tokens) fresh.input_ids)
    × All (λ c. (0 < length c) × (length c ≤ 2)) chunks
unfolding remaining_prefill_tokens
prefill_run_lem_example =
    prefill_run_lem 9 2 none 3 fresh (omega arith) (λ e. cc) refl (omega arith)

select_runs : select_next_sequence (queue_of ready) ≡ ok (some ready)
unfolding select_next_sequence Scheduler.candidates Dict.lookup is_terminal sort_by
select_runs = refl

select-IsNext_example : IsNext (queue_of ready) (some ready)
select-IsNext_example = select-IsNext (queue_of ready) (some ready) select_runs

ready_waits : IsCandidate (queue_of ready) ready
unfolding Dict.lookup is_terminal
ready_waits = here (refl, refl)

ready_decodes : effective_priority ready ≡ foreground_decode
unfolding effective_priority is_prefill_complete remaining_prefill_tokens
ready_decodes = refl

decode_first_example : (p : Sequence) × (some ready ≡ some p) × (is_prefill_complete p ≡ true)
decode_first_example =
    decode_first (queue_of ready) ready (some ready) select_runs ready_waits ready_decodes

one_queued : IsQueue (queue_of ready)
unfolding IsQueue Dict.lookup
one_queued = ((ready, refl), tt)

prompt_length : Option Sequence → ℕ
prompt_length none = 0
prompt_length (some q) = length q.input_ids

has_prompt : (q : Sequence) → IsCandidate (queue_of ready) q → 0 < length q.input_ids
unfolding Dict.lookup prompt_length
has_prompt q (here (e, live)) = omega (arith, ap prompt_length e)
has_prompt q (there m) = elim m [ ]

build_next_batch-total_example :
    ((n : InteractiveScheduler) × (build_next_batch "batch_1" 9 none (queue_of ready)
        ≡ (ok none, n))
      × ((q : Sequence) → ¬ IsCandidate (queue_of ready) q))
    ⊎ ((batch : Batch) × (n : InteractiveScheduler) × (build_next_batch "batch_1" 9 none
            (queue_of ready)
          ≡ (ok (some batch), n))
        × IsQueue n)
build_next_batch-total_example =
    build_next_batch-total "batch_1" 9 none (queue_of ready) one_queued has_prompt

abbrev session : Session
session = record {
  session_id = "sess_1";
  model_id = "m";
  messages = said ∷ [];
  active_sequence_id = some "req_1";
}

abbrev sessions : SessionManager
sessions = record { sessions = ("sess_1", session) ∷ [] }

handle_all-tokens_example :
    (handle_all
      (started 1 "req_1" ∷ token 2 "req_1" ∷ token 5 "req_1" ∷ done 6 "req_1" ∷ [])
      new_metrics).tokens_generated
    ≡ tokens
        (handle_all
          (started 1 "req_1" ∷ token 2 "req_1" ∷ token 5 "req_1" ∷ done 6 "req_1" ∷ [])
          new_metrics).timings
unfolding AreFresh IsFresh Dict.lookup tokens
handle_all-tokens_example =
    handle_all-tokens (started 1 "req_1" ∷ token 2 "req_1" ∷ token 5 "req_1" ∷ done 6 "req_1" ∷ [])
      new_metrics (refl, (tt, (tt, (tt, tt)))) refl

abbrev times : List ℕ
times = 5 ∷ 6 ∷ []

tokenize_messages_lem_example :
    Tokenizes (said ∷ []) (tokenize_messages (λ bytes. bytes) (said ∷ []))
tokenize_messages_lem_example = tokenize_messages_lem (λ bytes. bytes) (said ∷ [])

abbrev pages : PageAllocator
pages = record {
  num_pages = 4;
  page_size = 2;
  free_pages = 0 ∷ 1 ∷ 2 ∷ 3 ∷ [];
  used_pages = [];
  ref_count = 0 ∷ 0 ∷ 0 ∷ 0 ∷ [];
}

pages_are_new : new_allocator (pos 4) (pos 2) ≡ ok pages
unfolding new_allocator
pages_are_new = refl

abbrev pub kv : PagedKvCache
kv = record {
  config = record default_config { num_pages = 4; page_size = 2 };
  allocator = pages;
  tensors = none;
  mirrored_tokens = 0;
  mirror_skipped = 0;
}

kv-IsCache : IsCache kv
kv-IsCache = record {
  pages = new_allocator-IsValid (pos 4) (pos 2) pages pages_are_new;
  sized = refl;
}

abbrev pub no_prefixes : PrefixCache
no_prefixes = record {
  block_size = 2;
  max_entries = 1;
  heap = λ _. no_entry;
  next = 0;
  entries = [];
  hits = 0;
  misses = 0;
}

abbrev runtime : Sequence → RuntimeCore Unit
runtime q = record {
  scheduler = queue_of q;
  kv_cache = kv;
  prefix_cache = no_prefixes;
  executor = tt;
  session_manager = sessions;
  metrics = new_metrics;
  vram_manager = default_budget;
  active_by_session = ("sess_1", "req_1") ∷ [];
}

-- Its tokens are all 1.
abbrev constant : ModelExecutor Unit
constant = record {
  uses_paged_kv = true;
  supports_prefix_cache = true;
  tokenizer = none;
  forward_prefill = λ batch q s. (ok tt, s);
  forward_decode = λ batch q s. (ok (one (sample 1)), s);
}

abbrev chunk : Batch
chunk = record {
  batch_id = "batch_1";
  phase = prefill;
  seqs = "req_1" ∷ [];
  input_ids = 5 ∷ 6 ∷ [];
  positions = 0 ∷ 1 ∷ [];
  slot_mapping = none;
  page_indptr = none;
  page_indices = some [];
  last_page_len = none;
}

two_fit : pages_required kv 2 - 0 ≤ 4
unfolding pages_required
two_fit = omega arith

prepare_lem_example : prepare constant 2 chunk fresh (runtime fresh) ≡ (
  ok (
      with_metadata chunk (
        pages_of
          (kv_after constant refl chunk fresh
            (runtime fresh)
            refl
            2
            0
            2
            refl
            (omega arith)
            kv-IsCache
            two_fit)
          (0 ∷ [])
          2
          0
          2)),
  runtime_after constant refl chunk fresh
      (runtime fresh)
      refl
      2
      0
      2
      refl
      (omega arith)
      kv-IsCache
      two_fit,
)
unfolding pages_required
prepare_lem_example =
    prepare_lem constant refl chunk fresh (runtime fresh) refl 2 0 2 refl (omega arith) kv-IsCache
      two_fit

reply_once_example :
    (told : Sequence) × (r : RuntimeCore Unit) × (append_assistant_response ready (runtime ready)
      ≡ (ok tt, r))
    × (Scheduler.get "req_1" r.scheduler ≡ some told)
    × (transcript "sess_1" r.session_manager ≡ (
        if str_eq "sess_1" "sess_1"
        then transcript "sess_1" sessions ++ record { role = assistant; content = hello } ∷ []
        else transcript "sess_1" sessions))
    × (append_assistant_response told r ≡ (ok tt, r))
unfolding Session.get Dict.lookup
reply_once_example =
    reply_once ready (runtime ready) b'h' (b'i' ∷ []) session "sess_1" refl refl refl

finish_keeps_pages_example :
    let r = (finish_sequence 9 ready (runtime ready)).1 in
    (r.kv_cache ≡ kv) × (cancel_request 9 none (some "sess_1") r ≡ (ok false, r))
finish_keeps_pages_example = finish_keeps_pages 9 9 ready (runtime ready)

cancel_stops_example :
    (r : RuntimeCore Unit) × (cancel_request 9 (some "req_1") none (runtime fresh) ≡ (ok true, r))
    × (execute_batch (λ bytes. bytes) constant 9 chunk r ≡ (ok [], r))
    × (stream_round (λ bytes. bytes) constant "batch_2" 9 "req_1" r ≡ (ok over, r))
    × (cancel_request 9 (some "req_1") none r ≡ (ok false, r))
unfolding Scheduler.get Dict.lookup is_terminal
cancel_stops_example =
    cancel_stops (λ bytes. bytes) constant 9 "req_1" "batch_2" none fresh chunk (runtime fresh) refl
      refl refl refl
