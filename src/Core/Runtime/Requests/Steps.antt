-- ===== src/Core/Runtime/Requests/Steps.antt =====
-- What one batch of an alone sequence does to it: a chunk of the prompt, or a decode step.
use solo_rt.Prelude.{
  ℕ, ◌+◌, ◌≤◌, ◌<◌, ◌≡◌, refl, ◌∙◌, inl, inr, ◌⊎◌, false, List, [], ◌∷◌, ◌++◌, String, length, ok,
  Bool-cases, arith, length-append,
}
use mathlib.Core.List.{flatten}
use solo_rt.Prelude.Exec.{Exec, ◌>>=◌, ◌>>◌, >>=-ok}
use solo_rt.Cache.BlockHash.{Text}
use solo_rt.Cache.KvCache.{Held}
use solo_rt.Core.Sequence.{Sequence, running, finished, prefill, is_terminal, mark_finished}
use solo_rt.Core.Batch.{Batch}
use solo_rt.Core.Scheduler.{sequence_of}
use solo_rt.Core.Metrics.{RuntimeMetrics, record_token}
use solo_rt.Core.Runtime.{SampleResult, Decoded, ModelExecutor, RuntimeCore}
use solo_rt.Core.Runtime.Execute.{
  normalize_samples, accept, say, must_stop, take_samples, write_sequence, prepare, forward,
  postprocess, remember_prompt, take_decoded, execute_prefill, execute_decode,
}
use solo_rt.Core.Runtime.Execute.Tokens.{IsBounded, take_samples-IsBounded, Adds, take_samples-Adds}
use solo_rt.Core.Runtime.Requests.Alone.{IsServed, write-IsServed}
use solo_rt.Core.Runtime.Requests.Rounds.{
  IsResponsive, scheduled, moved, moved_table, sequence_of_served, forward_lem, moved-IsServed,
  prepare_free, postprocess_lem, remember_free,
}

-- What a decode step leaves: the prompt's fields, and a finished sequence or one with more tokens.
abbrev pub Advances : Sequence → Sequence → Type 0
Advances q last =
    (last.max_new_tokens ≡ q.max_new_tokens)
    × (last.num_cached_tokens ≡ q.num_cached_tokens)
    × (last.num_scheduled_tokens ≡ q.num_scheduled_tokens)
    × (last.num_prompt_tokens ≡ q.num_prompt_tokens)
    × ((last.status ≡ finished)
        ⊎ ((is_terminal last ≡ false) × (length q.output_ids < length last.output_ids)))

take_samples-Keeps :
    (now : ℕ) (samples : List SampleResult) (q : Sequence) (m : RuntimeMetrics)
    → let last = (take_samples now samples q m).1 in
      (last.num_prompt_tokens ≡ q.num_prompt_tokens)
      × (last.input_ids ≡ q.input_ids)
      × (last.max_new_tokens ≡ q.max_new_tokens)
      × (last.num_cached_tokens ≡ q.num_cached_tokens)
      × (last.num_scheduled_tokens ≡ q.num_scheduled_tokens)
unfolding take_samples accept say mark_finished
take_samples-Keeps now [] q m = (refl, refl, refl, refl, refl)
take_samples-Keeps now (sample ∷ samples) q m = elim (Bool-cases (is_terminal q)) [
  | inl t ↦ rw t (refl, refl, refl, refl, refl)
  | inr live ↦
      let longer = accept sample q in
      elim (Bool-cases (must_stop sample longer)) [
        | inl stop ↦ rw (live, stop) (refl, refl, refl, refl, refl)
        | inr go_on ↦
            rw (live, go_on) (take_samples-Keeps now samples longer (record_token now q.seq_id m))
      ]
]

-- The status stays, or is `FINISHED`, and no token is lost.
take_samples-Status :
    (now : ℕ) (samples : List SampleResult) (q : Sequence) (m : RuntimeMetrics)
    → is_terminal q ≡ false
    → let last = (take_samples now samples q m).1 in
      (last.status ≡ finished)
      ⊎ ((is_terminal last ≡ false) × (length q.output_ids ≤ length last.output_ids))
unfolding take_samples accept say mark_finished is_terminal
take_samples-Status now [] q m live = inr (live, omega arith)
take_samples-Status now (sample ∷ samples) q m live =
    let longer = accept sample q in
    elim (Bool-cases (must_stop sample longer)) [
      | inl stop ↦ rw (live, stop) (inl refl)
      | inr go_on ↦
          rw (live, go_on)
            (elim (take_samples-Status now samples longer (record_token now q.seq_id m) live) [
              | inl e ↦ inl e
              | inr (still, more) ↦
                  inr
                    (still, omega (arith, more, length-append q.output_ids (sample.token_id ∷ [])))
            ])
    ]

take_samples-Advances :
    (now : ℕ) (sample : SampleResult) (samples : List SampleResult) (q : Sequence)
    (m : RuntimeMetrics)
    → is_terminal q ≡ false
    → let last = (take_samples now (sample ∷ samples) q m).1 in
      (last.status ≡ finished)
      ⊎ ((is_terminal last ≡ false) × (length q.output_ids < length last.output_ids))
unfolding take_samples accept say mark_finished is_terminal
take_samples-Advances now sample samples q m live =
    let longer = accept sample q in
    elim (Bool-cases (must_stop sample longer)) [
      | inl stop ↦ rw (live, stop) (inl refl)
      | inr go_on ↦
          rw (live, go_on)
            (elim (take_samples-Status now samples longer (record_token now q.seq_id m) live) [
              | inl e ↦ inl e
              | inr (still, more) ↦
                  inr
                    (still, omega (arith, more, length-append q.output_ids (sample.token_id ∷ [])))
            ])
    ]

module _ {E : Type 0} where
  moved_live :
      (q : Sequence) (s : Held × E) → is_terminal q ≡ false → is_terminal (moved_table q s) ≡ false
  unfolding is_terminal
  moved_live q s live = live

  abbrev decoded_by : ModelExecutor E → ℕ → Batch → Exec (RuntimeCore E) (List Text)
  decoded_by x now batch = do
    decoded ← forward x.forward_decode batch
    take_decoded now batch decoded

  take_decoded_lem :
      (now : ℕ) (batch : Batch) (decoded : Decoded) (samples : List SampleResult) (q : Sequence)
      (r : RuntimeCore E)
      → normalize_samples decoded ≡ ok samples
      → sequence_of batch r.scheduler ≡ ok q
      → let (texts, last, metrics) = take_samples now samples q r.metrics in
        take_decoded now batch decoded r
        ≡ (ok texts, write_sequence last (record r { metrics = metrics }))
  unfolding take_decoded
  take_decoded_lem now batch decoded samples q r normal found =
      rw (take_decoded, normal, found) refl

module _ {E : Type 0} (blake2b : List ℕ → List ℕ) (x : ModelExecutor E) (responds : IsResponsive x)
    (id : String) where
  scheduled-IsServed :
      (now : ℕ) (batch : Batch) (q : Sequence) (r : RuntimeCore E)
      → IsServed id q r.scheduler
      → IsServed id (scheduled now batch q) (write_sequence (scheduled now batch q) r).scheduler
  unfolding IsBounded is_terminal
  scheduled-IsServed now batch q r h =
      write-IsServed id q (scheduled now batch q) r.scheduler h refl refl refl h.bounded

  -- A chunk of the prompt.
  pub prefill_step :
      (now : ℕ) (batch : Batch) (q : Sequence) (r : RuntimeCore E)
      → IsServed id q r.scheduler
      → batch.seqs ≡ id ∷ []
      → batch.phase ≡ prefill
      → q.status ≡ running
      → (table : List ℕ) × (r' : RuntimeCore E) × (execute_prefill blake2b x now batch q r
          ≡ (ok [], r'))
        × IsServed id (scheduled now batch (record q { block_table = table })) r'.scheduler
  unfolding execute_prefill
  prefill_step now batch q r h mine phase runs =
      let (s, ran) = responds.prefills batch q ((q.block_table, r.kv_cache), r.executor) in
      let found = sequence_of_served id q batch r h mine in
      let p = moved_table q s in
      let r1 = moved q r s in
      let h1 = moved-IsServed id q r s h in
      let found1 = sequence_of_served id p batch r1 h1 mine in
      let last = scheduled now batch p in
      let r2 = write_sequence last r1 in
      let h2 = scheduled-IsServed now batch p r1 h1 in
      let found2 = sequence_of_served id last batch r2 h2 mine in
      let remember : Batch → Exec (RuntimeCore E) (List Text) = remember_prompt blake2b x now in
      let settle : Batch → Exec (RuntimeCore E) (List Text) =
        λ b. postprocess now b >> remember b in
      let run : Batch → Exec (RuntimeCore E) (List Text) =
        λ b. forward x.forward_prefill b >> settle b in
      (
        s.0.0,
        r2,
        >>=-ok
              (prepare x (q.num_cached_tokens + q.num_scheduled_tokens + length batch.input_ids)
                batch q)
              run r
              (prepare_free x
                (q.num_cached_tokens + q.num_scheduled_tokens + length batch.input_ids) batch q r
                responds.no_pages)
            ∙ >>=-ok (forward x.forward_prefill batch) (λ _. settle batch) r
                (forward_lem x.forward_prefill batch q r tt s found ran)
            ∙ >>=-ok (postprocess now batch) (λ _. remember batch) r1
                (postprocess_lem now batch p r1 found1 runs phase)
            ∙ remember_free blake2b x now batch last r2 found2 responds.no_prefixes,
        h2,
      )

  -- A decode step.
  pub decode_step :
      (now : ℕ) (batch : Batch) (q : Sequence) (r : RuntimeCore E)
      → IsServed id q r.scheduler
      → batch.seqs ≡ id ∷ []
      → is_terminal q ≡ false
      → (texts : List Text) × (last : Sequence) × (r' : RuntimeCore E) × (execute_decode x now batch
            q r
          ≡ (ok texts, r'))
        × IsServed id last r'.scheduler
        × Advances q last
        × (last.metadata.response_text ≡ q.metadata.response_text ++ flatten texts)
  unfolding execute_decode Adds
  decode_step now batch q r h mine live =
      let (decoded, s, sample, samples, ran, normal) =
        responds.decodes batch q ((q.block_table, r.kv_cache), r.executor) in
      let found = sequence_of_served id q batch r h mine in
      let p = moved_table q s in
      let r1 = moved q r s in
      let h1 = moved-IsServed id q r s h in
      let found1 = sequence_of_served id p batch r1 h1 mine in
      let (texts, last, metrics) = take_samples now (sample ∷ samples) p r1.metrics in
      let adds = take_samples-Adds now (sample ∷ samples) p r1.metrics in
      let (prompt, ids, most, cached, sent) =
        take_samples-Keeps now (sample ∷ samples) p r1.metrics in
      let ahead = take_samples-Advances now sample samples p r1.metrics (moved_live q s live) in
      let r2 : RuntimeCore E = write_sequence last (record r1 { metrics = metrics }) in
      (
        texts,
        last,
        r2,
        >>=-ok (prepare x (q.num_prompt_tokens + length q.output_ids + 1) batch q)
              (decoded_by x now) r
              (prepare_free x (q.num_prompt_tokens + length q.output_ids + 1) batch q r
                responds.no_pages)
            ∙ >>=-ok (forward x.forward_decode batch) (take_decoded now batch) r
                (forward_lem x.forward_decode batch q r decoded s found ran)
            ∙ take_decoded_lem now batch decoded (sample ∷ samples) p r1 normal found1,
        write-IsServed id p last r1.scheduler h1 adds.3 prompt ids
            (take_samples-IsBounded now (sample ∷ samples) p r1.metrics h1.bounded),
        (most, cached, sent, prompt, ahead),
        adds.0,
      )
