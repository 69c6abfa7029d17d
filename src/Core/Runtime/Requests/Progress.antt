-- ===== src/Core/Runtime/Requests/Progress.antt =====
-- One round of an alone sequence's stream brings its end nearer.
use solo_rt.Prelude.{
  ℕ, ◌+◌, ◌-◌, ◌<◌, ◌≡◌, refl, sym, ap, ◌∙◌, inl, inr, ◌⊎◌, true, false, none, some, List, [], ◌∷◌,
  ◌++◌, String, length, ok, Bool-cases, arith, append-nil,
}
use mathlib.Core.List.{flatten}
use solo_rt.Cache.BlockHash.{Text}
use solo_rt.Core.Sequence.{
  Sequence, finished, is_terminal, mark_running, is_prefill_complete, remaining_prefill_tokens,
}
use solo_rt.Core.Batch.{Batch, build_prefill, build_decode, decode_of}
use solo_rt.Core.Scheduler
use solo_rt.Core.Scheduler.{
  InteractiveScheduler, sequence_of, write, build_next_batch, batch_of, next_chunk,
  effective_priority, chunk_size,
}
use solo_rt.Core.Scheduler.Queue.{last_token-total}
use solo_rt.Core.Scheduler.Prefill.{chunk_size_bounds, length-next_chunk}
use solo_rt.Core.Runtime.{ModelExecutor, RuntimeCore}
use solo_rt.Core.Runtime.Execute.{run_phase}
use solo_rt.Core.Runtime.Execute.Tokens.{IsBounded}
use solo_rt.Core.Runtime.Finish.{stream_round, yields}
use solo_rt.Core.Runtime.Finish.Stream.{round_runs, execute_lem}
use solo_rt.Core.Runtime.Requests.Alone.{IsServed, select_served, write-IsServed}
use solo_rt.Core.Runtime.Requests.Rounds.{IsResponsive, scheduled, sequence_of_served}
use solo_rt.Core.Runtime.Requests.Steps.{Advances, prefill_step, decode_step}

-- The rounds that a sequence may still take.
unfoldable pub rounds_left : Sequence → ℕ
rounds_left q = remaining_prefill_tokens q + (q.max_new_tokens - length q.output_ids)

-- The sequence as the round's batch has it.
abbrev selected : ℕ → Sequence → Sequence
selected now q = record (mark_running now q) { priority = effective_priority (mark_running now q) }

-- A sequence that has finished, or is nearer to its end.
abbrev pub Nearer : Sequence → Sequence → Type 0
Nearer q last =
    (last.status ≡ finished) ⊎ ((is_terminal last ≡ false) × (rounds_left last < rounds_left q))

selected-IsServed :
    (now : ℕ) (id : String) (q : Sequence) (s : InteractiveScheduler)
    → IsServed id q s
    → is_terminal q ≡ false
    → IsServed id (selected now q) (write (selected now q) s)
unfolding mark_running IsBounded is_terminal
selected-IsServed now id q s h live =
    write-IsServed id q (selected now q) s h refl refl refl (h.bounded.0, λ _. h.bounded.1 live)

build_prefill_lem :
    (batch_id : String) (now : ℕ) (id : String) (q : Sequence) (s : InteractiveScheduler)
    → IsServed id q s
    → is_terminal q ≡ false
    → is_prefill_complete q ≡ false
    → build_next_batch batch_id now none s ≡ (
      ok (
          some (
            build_prefill batch_id
              (selected now q)
              (next_chunk s.max_prefill_chunk_tokens none (selected now q)))),
      write (selected now q) s,
    )
unfolding build_next_batch batch_of
build_prefill_lem batch_id now id q s h live c =
    rw (build_next_batch, select_served id q s h live, c) refl

build_decode_lem :
    (batch_id : String) (now : ℕ) (id : String) (q : Sequence) (s : InteractiveScheduler)
    → IsServed id q s
    → is_terminal q ≡ false
    → is_prefill_complete q ≡ true
    → (token : ℕ) × (build_next_batch batch_id now none s
        ≡ (ok (some (decode_of batch_id (selected now q) token)), write (selected now q) s))
unfolding build_next_batch batch_of build_decode mark_running
build_decode_lem batch_id now id q s h live c =
    let (token, read) = last_token-total (selected now q) h.some_prompt in
    (token, rw (build_next_batch, select_served id q s h live, c, read) refl)

nearer_prefill :
    (now max : ℕ) (batch : Batch) (table : List ℕ) (q : Sequence)
    → 0 < max
    → q.num_prompt_tokens ≡ length q.input_ids
    → is_prefill_complete q ≡ false
    → batch.input_ids ≡ next_chunk max none (selected now q)
    → rounds_left (scheduled now batch (record (selected now q) { block_table = table }))
      < rounds_left q
unfolding rounds_left remaining_prefill_tokens mark_running is_prefill_complete
nearer_prefill now max batch table q m prompt c ids =
    let (lo, _, fits, _) = chunk_size_bounds max none (selected now q) m c in
    let size = length-next_chunk max none (selected now q) prompt in
    omega (arith, lo, fits, size, ap length ids)

Nearer-decode :
    (now : ℕ) (q last : Sequence) → Advances (selected now q) last → IsBounded last → Nearer q last
unfolding rounds_left remaining_prefill_tokens mark_running IsBounded
Nearer-decode now q last (most, cached, sent, prompt, inl e) h = inl e
Nearer-decode now q last (most, cached, sent, prompt, inr (live, more)) h =
    inr (live, omega (arith, most, cached, sent, prompt, more, h.1 live))

module _ {E : Type 0} (blake2b : List ℕ → List ℕ) (x : ModelExecutor E) (responds : IsResponsive x)
    (id : String) where
  -- A round that yields these texts and leaves the sequence nearer to its end.
  abbrev pub Goes : String → ℕ → Sequence → RuntimeCore E → Type 0
  Goes batch_id now q r =
      (texts : List Text) × (last : Sequence) × (r' : RuntimeCore E) × (stream_round blake2b x
          batch_id now id r
        ≡ (ok (yields texts), r'))
      × IsServed id last r'.scheduler
      × Nearer q last
      × (last.metadata.response_text ≡ q.metadata.response_text ++ flatten texts)
      × (last.max_new_tokens ≡ q.max_new_tokens)
      × (last.num_prompt_tokens ≡ q.num_prompt_tokens)

  prefill_round :
      (batch_id : String) (now : ℕ) (q : Sequence) (r : RuntimeCore E)
      → IsServed id q r.scheduler
      → is_terminal q ≡ false
      → is_prefill_complete q ≡ false
      → Goes batch_id now q r
  unfolding build_prefill run_phase mark_running Scheduler.get is_terminal flatten
  prefill_round batch_id now q r h live c =
      let p = selected now q in
      let s = write p r.scheduler in
      let max = r.scheduler.max_prefill_chunk_tokens in
      let batch = build_prefill batch_id p (next_chunk max none p) in
      let r1 : RuntimeCore E = record r { scheduler = s } in
      let h1 = selected-IsServed now id q r.scheduler h live in
      let own = ap (λ i. i ∷ []) h.keyed in
      let (table, r', ran, served) =
        prefill_step blake2b x responds id now batch p r1 h1 own refl refl in
      let found = sequence_of_served id p batch r1 h1 own in
      let last = scheduled now batch (record p { block_table = table }) in
      (
        [],
        last,
        r',
        round_runs blake2b x batch_id now id q batch s [] r r' h.held live
            (build_prefill_lem batch_id now id q r.scheduler h live c) own
            (execute_lem blake2b x now batch p r1 found refl ∙ ran),
        served,
        inr (refl, nearer_prefill now max batch table q h.chunks h.prompt c refl),
        sym (append-nil q.metadata.response_text),
        refl,
        refl,
      )

  decode_round :
      (batch_id : String) (now : ℕ) (q : Sequence) (r : RuntimeCore E)
      → IsServed id q r.scheduler
      → is_terminal q ≡ false
      → is_prefill_complete q ≡ true
      → Goes batch_id now q r
  unfolding decode_of run_phase mark_running Scheduler.get is_terminal
  decode_round batch_id now q r h live c =
      let p = selected now q in
      let s = write p r.scheduler in
      let (token, built) = build_decode_lem batch_id now id q r.scheduler h live c in
      let batch = decode_of batch_id p token in
      let r1 : RuntimeCore E = record r { scheduler = s } in
      let h1 = selected-IsServed now id q r.scheduler h live in
      let own = ap (λ i. i ∷ []) h.keyed in
      let (texts, last, r', ran, served, ahead, said) =
        decode_step blake2b x responds id now batch p r1 h1 own refl in
      let found = sequence_of_served id p batch r1 h1 own in
      (
        texts,
        last,
        r',
        round_runs blake2b x batch_id now id q batch s texts r r' h.held live built own
            (execute_lem blake2b x now batch p r1 found refl ∙ ran),
        served,
        Nearer-decode now q last ahead served.bounded,
        said,
        ahead.0,
        ahead.3,
      )

  pub round-Goes :
      (batch_id : String) (now : ℕ) (q : Sequence) (r : RuntimeCore E)
      → IsServed id q r.scheduler
      → is_terminal q ≡ false
      → Goes batch_id now q r
  round-Goes batch_id now q r h live = elim (Bool-cases (is_prefill_complete q)) [
    | inl c ↦ decode_round batch_id now q r h live c
    | inr c ↦ prefill_round batch_id now q r h live c
  ]
