-- ===== src/Core/Runtime/Requests/Rounds.antt =====
-- A round of the stream of a sequence that is alone in the scheduler, with an executor that has
-- neither paged KV nor a prefix cache.
use solo_rt.Prelude.{
  ℕ, ◌+◌, ◌≡◌, refl, ap, ◌∙◌, inl, inr, false, List, [], ◌∷◌, String, length, ok, Option-cases,
  Bool-cases,
}
use solo_rt.Prelude.Exec.{Exec}
use solo_rt.Cache.KvCache.{Held}
use solo_rt.Core.Sequence.{Sequence, running, cancelled, prefill, is_terminal, is_prefill_complete}
use solo_rt.Core.Batch.{Batch}
use solo_rt.Core.Scheduler.{sequence_of, advance, postprocess_batch}
use solo_rt.Core.Runtime.{SampleResult, Decoded, ModelExecutor, RuntimeCore}
use solo_rt.Core.Runtime.Execute.{
  normalize_samples, write_sequence, prepare, forward, postprocess, remember_prompt,
}
use solo_rt.Core.Runtime.Execute.Tokens.{IsBounded}
use solo_rt.Core.Runtime.Requests.Alone.{IsServed, write-IsServed}

-- An executor that returns from each call, and from a decode step with a sample at least.
pub record IsResponsive {E : Type 0} (x : ModelExecutor E) : Type 0 where
  pub no_pages : x.uses_paged_kv ≡ false
  pub no_prefixes : x.supports_prefix_cache ≡ false
  pub prefills :
      (batch : Batch) (q : Sequence) (s : Held × E)
      → (s' : Held × E) × (x.forward_prefill batch q s ≡ (ok tt, s'))
  pub decodes :
      (batch : Batch) (q : Sequence) (s : Held × E)
      → (decoded : Decoded) × (s' : Held × E) × (sample : SampleResult) × (samples : List
          SampleResult)
        × (x.forward_decode batch q s ≡ (ok decoded, s'))
        × (normalize_samples decoded ≡ ok (sample ∷ samples))

abbrev pub scheduled : ℕ → Batch → Sequence → Sequence
scheduled now batch q = record q {
  num_scheduled_tokens = q.num_scheduled_tokens + length batch.input_ids;
  last_active_ts = now;
}

advance_running :
    (now : ℕ) (batch : Batch) (q : Sequence)
    → q.status ≡ running
    → advance now prefill (length batch.input_ids) q ≡ scheduled now batch q
unfolding advance
advance_running now batch q runs =
    ap (λ status. elim status as (λ _. Sequence) [ cancelled ↦ q | _ ↦ scheduled now batch q ]) runs

module _ {E : Type 0} where
  pub sequence_of_served :
      (id : String) (q : Sequence) (batch : Batch) (r : RuntimeCore E)
      → IsServed id q r.scheduler
      → batch.seqs ≡ id ∷ []
      → sequence_of batch r.scheduler ≡ ok q
  unfolding sequence_of
  sequence_of_served id q batch r h mine = rw (sequence_of, mine, h.held) refl

  -- The sequence and the runtime after a forward pass that left this.
  abbrev pub moved_table : Sequence → Held × E → Sequence
  moved_table q s = record q { block_table = s.0.0 }

  abbrev pub moved : Sequence → RuntimeCore E → Held × E → RuntimeCore E
  moved q r s = write_sequence (moved_table q s) (record r { kv_cache = s.0.1; executor = s.1 })

  pub forward_lem :
      {A : Type 0} (run : Batch → Sequence → Exec (Held × E) A) (batch : Batch) (q : Sequence)
      (r : RuntimeCore E) (a : A) (s : Held × E)
      → sequence_of batch r.scheduler ≡ ok q
      → run batch q ((q.block_table, r.kv_cache), r.executor) ≡ (ok a, s)
      → forward run batch r ≡ (ok a, moved q r s)
  unfolding forward
  forward_lem run batch q r a s found ran = rw (forward, found, ran) refl

  pub moved-IsServed :
      (id : String) (q : Sequence) (r : RuntimeCore E) (s : Held × E)
      → IsServed id q r.scheduler
      → IsServed id (moved_table q s) (moved q r s).scheduler
  unfolding IsBounded is_terminal
  moved-IsServed id q r s h =
      write-IsServed id q (moved_table q s) r.scheduler h refl refl refl h.bounded

  pub prepare_free :
      (x : ModelExecutor E) (n : ℕ) (batch : Batch) (q : Sequence) (r : RuntimeCore E)
      → x.uses_paged_kv ≡ false
      → prepare x n batch q r ≡ (ok batch, r)
  unfolding prepare
  prepare_free x n batch q r free = rw (prepare, free) refl

  pub postprocess_lem :
      (now : ℕ) (batch : Batch) (q : Sequence) (r : RuntimeCore E)
      → sequence_of batch r.scheduler ≡ ok q
      → q.status ≡ running
      → batch.phase ≡ prefill
      → postprocess now batch r ≡ (ok tt, write_sequence (scheduled now batch q) r)
  unfolding postprocess postprocess_batch
  postprocess_lem now batch q r found runs phase =
      let next : advance now batch.phase (length batch.input_ids) q ≡ scheduled now batch q =
        ap (λ step. advance now step (length batch.input_ids) q) phase
        ∙ advance_running now batch q runs in
      rw (postprocess, postprocess_batch, found) (ap (λ p. (ok tt, write_sequence p r)) next)

  pub remember_free :
      (blake2b : List ℕ → List ℕ) (x : ModelExecutor E) (now : ℕ) (batch : Batch) (q : Sequence)
      (r : RuntimeCore E)
      → sequence_of batch r.scheduler ≡ ok q
      → x.supports_prefix_cache ≡ false
      → remember_prompt blake2b x now batch r ≡ (ok [], r)
  unfolding remember_prompt
  remember_free blake2b x now batch q r found free = elim (Option-cases q.cache_handle) [
    | inl e ↦ elim (Bool-cases (is_prefill_complete q)) [
      | inl c ↦ rw (remember_prompt, found, e, c, free) refl
      | inr c ↦ rw (remember_prompt, found, e, c) refl
    ]
    | inr (handle, e) ↦ rw (remember_prompt, found, e) refl
  ]
