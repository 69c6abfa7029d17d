-- ===== src/Core/Runtime/Execute.antt =====
-- `RuntimeCore._execute_batch`: page metadata, one forward pass of the executor, and what its
-- tokens do to the sequence.
pub mod Tokens
pub mod Pages
use solo_rt.Prelude.{
  ℕ, zero, suc, ◌+◌, Bool, true, false, ◌&&◌, ◌||◌, Option, none, some, List, [], ◌∷◌, ◌++◌, String,
  if◌then◌else◌, leb, length, contains, Result, ok, err, type_error, key_error,
}
use solo_rt.Prelude.Exec.{Exec, pure, ◌>>=◌, ◌>>◌}
use solo_rt.Cache.BlockHash.{Text}
use solo_rt.Cache.KvCache.{PagedKvCache, Held, KvCacheMetadata, ensure_capacity, metadata_for}
use solo_rt.Cache.PrefixCache.{PrefixCache, Address}
use solo_rt.Cache.PrefixCache
use solo_rt.Core.Sequence.{
  Sequence, SequenceStatus, waiting, running, finished, cancelled, BatchPhase, prefill, decode,
  generated_tokens, is_prefill_complete, is_terminal, mark_finished,
}
use solo_rt.Core.Batch.{Batch}
use solo_rt.Core.Scheduler.{write, sequence_of, postprocess_batch}
use solo_rt.Core.Metrics.{RuntimeMetrics, record_token}
use solo_rt.Core.Runtime.{SampleResult, Decoded, one, many, other, ModelExecutor, RuntimeCore}

-- `_normalize_samples`
unfoldable pub normalize_samples : Decoded → Result (List SampleResult)
normalize_samples (one sample) = ok (sample ∷ [])
normalize_samples (many samples) = ok samples
normalize_samples other = err type_error

-- `if sample.text:` ...
unfoldable pub say : Text → Sequence → Sequence
say text q = record q {
  metadata = record q.metadata { response_text = q.metadata.response_text ++ text };
}

unfoldable pub accept : SampleResult → Sequence → Sequence
unfolding say
accept sample q = say sample.text (record q { output_ids = q.output_ids ++ sample.token_id ∷ [] })

unfoldable pub must_stop : SampleResult → Sequence → Bool
must_stop sample q =
    leb q.max_new_tokens (generated_tokens q)
    || contains q.stop_token_ids sample.token_id
    || sample.is_last

-- `if sample.text: token_texts.append(sample.text)`
unfoldable pub text_of : SampleResult → List Text
text_of sample = elim sample.text [ [] ↦ [] | c ∷ cs ↦ sample.text ∷ [] ]

-- The loop over the samples of one decode step: the texts it yields, the sequence and the metrics.
unfoldable pub take_samples :
    ℕ → List SampleResult → Sequence → RuntimeMetrics → List Text × Sequence × RuntimeMetrics
unfolding accept must_stop text_of
take_samples now [] q m = ([], q, m)
take_samples now (sample ∷ samples) q m =
    let longer = accept sample q in
    let counted = record_token now q.seq_id m in
    let (texts, last, metrics) = take_samples now samples longer counted in
    if is_terminal q
    then ([], q, m)
    else if must_stop sample longer
    then (text_of sample, mark_finished now longer, counted)
    else (text_of sample ++ texts, last, metrics)

unfoldable pub with_metadata : Batch → KvCacheMetadata → Batch
with_metadata batch m = record batch {
  page_indptr = some m.page_indptr;
  page_indices = some m.page_indices;
  last_page_len = some m.last_page_len;
  slot_mapping = some m.slot_mapping;
}

module _ {E : Type 0} where
  abbrev pub write_sequence : Sequence → RuntimeCore E → RuntimeCore E
  write_sequence q r = record r { scheduler = write q r.scheduler }

  unfoldable pub reserved :
      Sequence → RuntimeCore E → Result (List ℕ) × Held → Result (Unit {0}) × RuntimeCore E
  reserved q r (result, (table, kv)) =
      let after = write_sequence (record q { block_table = table }) (record r { kv_cache = kv }) in
      elim result [ err e ↦ (err e, after) | ok pages ↦ (ok tt, after) ]

  -- `self.kv_cache.ensure_capacity(sequence.block_table, ...)`, which extends the sequence's table.
  unfoldable pub reserve : ℕ → Sequence → Exec (RuntimeCore E) Unit
  unfolding reserved
  reserve token_count q r = reserved q r (ensure_capacity token_count (q.block_table, r.kv_cache))

  unfoldable pub attached :
      Batch → RuntimeCore E → Result KvCacheMetadata → Result Batch × RuntimeCore E
  unfolding with_metadata
  attached batch r (err e) = (err e, r)
  attached batch r (ok m) = (ok (with_metadata batch m), r)

  unfoldable pub attach_to :
      ℕ → Batch → RuntimeCore E → Result Sequence → Result Batch × RuntimeCore E
  unfolding attached
  attach_to token_count batch r (err e) = (err e, r)
  attach_to token_count batch r (ok q) =
      attached batch r (metadata_for r.kv_cache q.block_table token_count (some batch.positions))

  -- `_attach_kv_metadata`
  unfoldable pub attach_kv_metadata : ℕ → Batch → Exec (RuntimeCore E) Batch
  unfolding attach_to
  attach_kv_metadata token_count batch r =
      attach_to token_count batch r (sequence_of batch r.scheduler)

  -- What `_execute_batch` does before the forward pass, for an executor that uses paged KV.
  unfoldable pub prepare : ModelExecutor E → ℕ → Batch → Sequence → Exec (RuntimeCore E) Batch
  unfolding reserve attach_kv_metadata
  prepare x token_count batch q =
      if x.uses_paged_kv
      then (reserve token_count q >> attach_kv_metadata token_count batch)
      else pure batch

  -- A forward pass on the batch's sequence, whose table it may extend.
  unfoldable pub forward :
      {A : Type 0} → (Batch → Sequence → Exec (Held × E) A) → Batch → Exec (RuntimeCore E) A
  forward run batch r = elim (sequence_of batch r.scheduler) [
    | err e ↦ (err e, r)
    | ok q ↦
        let (result, ((table, kv), executor)) =
          run batch q ((q.block_table, r.kv_cache), r.executor) in
        (
          result,
          write_sequence (record q { block_table = table })
              (record r { kv_cache = kv; executor = executor }),
        )
  ]

  unfoldable pub postprocess : ℕ → Batch → Exec (RuntimeCore E) Unit
  postprocess now batch r =
      let (result, scheduler) = postprocess_batch now batch r.scheduler in
      (result, record r { scheduler = scheduler })

  -- The prompt enters the prefix cache once it is complete.
  unfoldable pub remember_prompt :
      (List ℕ → List ℕ) → ModelExecutor E → ℕ → Batch → Exec (RuntimeCore E) (List Text)
  remember_prompt blake2b x now batch r = elim (sequence_of batch r.scheduler) [
    | err e ↦ (err e, r)
    | ok q ↦ elim q.cache_handle [
      | some handle ↦ (ok [], r)
      | none ↦
          if is_prefill_complete q && x.supports_prefix_cache
          then (let (result, prefixes) =
                PrefixCache.insert blake2b now q.input_ids q.block_table true r.prefix_cache in
              let after : RuntimeCore E = record r { prefix_cache = prefixes } in
              elim result [
                | err e ↦ (err e, after)
                | ok entry ↦ (ok [], write_sequence (record q { cache_handle = some entry }) after)
              ])
          else (ok [], r)
    ]
  ]

  unfoldable pub take_decoded : ℕ → Batch → Decoded → Exec (RuntimeCore E) (List Text)
  unfolding normalize_samples take_samples
  take_decoded now batch decoded r = elim (normalize_samples decoded) [
    | err e ↦ (err e, r)
    | ok samples ↦ elim (sequence_of batch r.scheduler) [
      | err e ↦ (err e, r)
      | ok q ↦
          let (texts, last, metrics) = take_samples now samples q r.metrics in
          (ok texts, write_sequence last (record r { metrics = metrics }))
    ]
  ]

  unfoldable pub execute_prefill :
      (List ℕ → List ℕ) → ModelExecutor E → ℕ → Batch → Sequence → Exec (RuntimeCore E) (List Text)
  unfolding prepare forward postprocess remember_prompt
  execute_prefill blake2b x now batch q = do
    batch' ←
        prepare x (q.num_cached_tokens + q.num_scheduled_tokens + length batch.input_ids) batch q
    forward x.forward_prefill batch'
    postprocess now batch'
    remember_prompt blake2b x now batch'

  unfoldable pub execute_decode :
      ModelExecutor E → ℕ → Batch → Sequence → Exec (RuntimeCore E) (List Text)
  unfolding prepare forward take_decoded
  execute_decode x now batch q = do
    batch' ← prepare x (q.num_prompt_tokens + length q.output_ids + 1) batch q
    decoded ← forward x.forward_decode batch'
    take_decoded now batch' decoded

  unfoldable pub run_phase :
      (List ℕ → List ℕ)
      → ModelExecutor E
      → ℕ
      → Batch
      → Sequence
      → BatchPhase
      → Exec (RuntimeCore E) (List Text)
  unfolding execute_prefill execute_decode
  run_phase blake2b x now batch q prefill = execute_prefill blake2b x now batch q
  run_phase blake2b x now batch q decode = execute_decode x now batch q

  unfoldable pub run_live :
      (List ℕ → List ℕ)
      → ModelExecutor E
      → ℕ
      → Batch
      → Sequence
      → SequenceStatus
      → Exec (RuntimeCore E) (List Text)
  unfolding run_phase
  run_live blake2b x now batch q cancelled r = (ok [], r)
  run_live blake2b x now batch q _ r = run_phase blake2b x now batch q batch.phase r

  unfoldable pub run_found :
      (List ℕ → List ℕ)
      → ModelExecutor E
      → ℕ
      → Batch
      → Result Sequence
      → Exec (RuntimeCore E) (List Text)
  unfolding run_live
  run_found blake2b x now batch (err e) r = (err e, r)
  run_found blake2b x now batch (ok q) r = run_live blake2b x now batch q q.status r

  unfoldable pub execute_batch :
      (List ℕ → List ℕ) → ModelExecutor E → ℕ → Batch → Exec (RuntimeCore E) (List Text)
  unfolding run_found
  execute_batch blake2b x now batch r =
      run_found blake2b x now batch (sequence_of batch r.scheduler) r
