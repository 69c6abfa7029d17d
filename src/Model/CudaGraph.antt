-- ===== src/Model/CudaGraph.antt =====
-- src/solort/model/cuda_graph_executor.py: the buckets of the captured graphs and the steps of
-- `CudaGraphQwen3Executor`. A replayed graph is a step of an abstract runner.
pub mod Buckets
pub mod Steps
use solo_rt.Prelude.{
  ℕ, zero, suc, ◌+◌, ◌-◌, min, max, Bool, true, false, ◌&&◌, ◌||◌, not, Option, none, some, List,
  [], ◌∷◌, ◌++◌, if◌then◌else◌, ltb, leb, ◌==◌, length, take, get_or, Result, ok, err,
  runtime_error, stop_iteration,
}
use solo_rt.Prelude.Errors.{◌>>=◌}
use solo_rt.Core.Sequence.{Sequence}
use solo_rt.Core.Runtime.{SampleResult, Decoded, one, many}
use solo_rt.Model.Serving.{
  Backend, ServingState, sample_token, append_token_result, append_tokens, is_nonpositive, is_one,
}

-- `[b for b in sizes if test(b)]`
unfoldable pub keep : (ℕ → Bool) → List ℕ → List ℕ
keep test [] = []
keep test (b ∷ sizes) = let rest = keep test sizes in if test b then b ∷ rest else rest

-- `next(b for b in sizes if test(b))`
unfoldable pub first_with : (ℕ → Bool) → List ℕ → Result ℕ
first_with test [] = err stop_iteration
first_with test (b ∷ sizes) = let rest = first_with test sizes in if test b then ok b else rest

-- `buckets`, sorted: the sizes are below `max_len`, which comes last.
unfoldable pub buckets : ℕ → List ℕ
unfolding keep
buckets max_len =
    keep (λ b. ltb b max_len) (128 ∷ 256 ∷ 512 ∷ 1024 ∷ 2048 ∷ 4096 ∷ []) ++ max_len ∷ []

-- `pre_buckets`
unfoldable pub pre_buckets : ℕ → List ℕ
unfolding keep
pre_buckets max_len = keep (λ b. leb b max_len) (16 ∷ 32 ∷ 64 ∷ 128 ∷ 256 ∷ 512 ∷ 1024 ∷ [])

-- `_bucket_for`
unfoldable pub bucket_for : ℕ → ℕ → Result ℕ
unfolding first_with buckets
bucket_for max_len pos = first_with (λ b. ltb pos b) (buckets max_len)

-- The bound of `prefill` for a prompt of this length.
unfoldable pub prefill_bound : ℕ → ℕ → Result ℕ
unfolding first_with pre_buckets
prefill_bound max_len plen = first_with (λ b. leb plen b) (pre_buckets max_len)

-- The static KV buffers: the prompt's forward in a bound, and a decode step that writes one slot.
pub record Runner (R L : Type 0) : Type 0 where
  pub prefill : ℕ → List ℕ → R → L × R
  pub step : ℕ → ℕ → ℕ → R → L × R

module _ {R L : Type 0} (g : Runner R L) (max_len : ℕ) where
  -- `decode`
  unfoldable pub decode : ℕ → ℕ → R → Result (L × R)
  unfolding bucket_for
  decode token pos r = bucket_for max_len pos >>= λ bound. ok (g.step bound token pos r)

-- `_is_greedy`
unfoldable pub is_greedy : Sequence → Bool
unfolding is_nonpositive is_one
is_greedy q = is_nonpositive q.metadata.temperature && is_one q.metadata.repetition_penalty

module _ {P D : Type 0} where
  -- `max(1, min(self._decode_chunk, remaining, self._max_len - position))`
  unfoldable pub chunk_length : ℕ → ℕ → Sequence → ServingState P D → ℕ → ℕ
  chunk_length max_len decode_chunk q state position = max 1 (
      min (min decode_chunk (q.max_new_tokens - length state.generated_token_ids))
        (max_len - position))

  -- The token at which decoding goes on.
  unfoldable pub last_generated : ServingState P D → ℕ
  last_generated state = get_or state.generated_token_ids (length state.generated_token_ids - 1) 0

  -- `state.prompt_token_count + len(state.generated_token_ids)`
  unfoldable pub decode_position : ServingState P D → ℕ
  decode_position state = state.prompt_token_count + length state.generated_token_ids

module _ {P D R L : Type 0} (b : Backend P D L) (g : Runner R L) (max_len decode_chunk : ℕ) where
  -- `decode_gpu_argmax`, k times from a token: each argmax is fed to the next step.
  unfoldable pub decode_chain : ℕ → ℕ → ℕ → R → Result (List ℕ × R)
  unfolding decode
  decode_chain zero token pos r = ok ([], r)
  decode_chain (suc k) token pos r = decode g max_len token pos r >>= λ (l, after).
      decode_chain k (b.argmax l) (pos + 1) after >>= λ (tokens, last).
      ok (b.argmax l ∷ tokens, last)

  unfoldable pub decode_sampled :
      Sequence → ServingState P D → ℕ → R → Result (List SampleResult × ServingState P D × R)
  unfolding decode sample_token append_token_result last_generated
  decode_sampled q state position r =
      decode g max_len (last_generated state) position r >>= λ (l, after).
      let (result, next) = append_token_result b q state (sample_token b l q) in
      ok (result ∷ [], next, after)

  unfoldable pub decode_greedy :
      Sequence → ServingState P D → ℕ → R → Result (List SampleResult × ServingState P D × R)
  unfolding decode_chain chunk_length append_tokens last_generated
  decode_greedy q state position r =
      decode_chain (chunk_length max_len decode_chunk q state position) (last_generated state)
        position r
      >>= λ (tokens, after).
          let (results, next) = append_tokens b q tokens state in ok (results, next, after)

  -- `forward_decode` behind its first three tests.
  unfoldable pub decode_next :
      Sequence → ServingState P D → R → Result (List SampleResult × ServingState P D × R)
  unfolding decode_position is_greedy decode_sampled decode_greedy
  decode_next q state r =
      let position = decode_position state in
      if leb max_len position
      then err runtime_error
      else if is_greedy q
      then decode_greedy q state position r
      else decode_sampled q state position r

  abbrev end_of_text : SampleResult
  end_of_text = record { token_id = b.eos_token_id; text = []; is_last = true }

  -- `forward_decode`, on the state that `_ensure_state` gives.
  unfoldable pub forward_decode :
      Sequence → ServingState P D → R → Result (List SampleResult × ServingState P D × R)
  unfolding decode_next append_token_result
  forward_decode q state r =
      if state.finished then ok (end_of_text ∷ [], state, r) else elim state.pending_token_id [
        | some token ↦
            let (result, next) =
              append_token_result b q (record state { pending_token_id = none }) token in
            ok (result ∷ [], next, r)
        | none ↦
            if length state.generated_token_ids == 0
            then ok (end_of_text ∷ [], record state { finished = true }, r)
            else decode_next q state r
      ]

  -- `forward_prefill`: nothing runs before the last chunk of the prompt.
  unfoldable pub forward_prefill :
      Sequence → List ℕ → ServingState P D → R → Result (ServingState P D × R)
  unfolding prefill_bound sample_token
  forward_prefill q input_ids state r =
      let filled : ServingState P D = record state {
        prefilled_token_count = state.prefilled_token_count + length input_ids;
        prompt_token_count = max state.prompt_token_count q.num_prompt_tokens;
      } in
      let prompt = take q.num_prompt_tokens q.input_ids in
      if length input_ids == 0
      then ok (state, r)
      else if ltb filled.prefilled_token_count q.num_prompt_tokens
      then ok (filled, r)
      else if leb max_len (length prompt)
      then err runtime_error
      else (prefill_bound max_len (length prompt) >>= λ bound.
          let (l, after) = g.prefill bound prompt r in
          ok (record filled { pending_token_id = some (sample_token b l q) }, after))
