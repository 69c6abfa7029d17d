-- ===== src/Model/CudaGraph/Steps.antt =====
-- The greedy decode steps of src/solort/model/cuda_graph_executor.py.
use solo_rt.Prelude.{
  ℕ, zero, suc, ◌+◌, ◌≤◌, ◌<◌, min, max, ◌≡◌, refl, ap, ◌∙◌, Bool, true, false, none, List, [], ◌∷◌,
  ◌++◌, leb, ◌==◌, length, length-append, ok, arith,
}
use solo_rt.Core.Sequence.{Sequence}
use solo_rt.Core.Runtime.{SampleResult}
use solo_rt.Model.Serving.{
  Backend, ServingState, decode_delta, append_token_result, append_tokens, stop_if,
}
use solo_rt.Model.CudaGraph.{
  Runner, decode, decode_chain, chunk_length, is_greedy, decode_position, decode_greedy,
  decode_next, last_generated, forward_decode,
}
use solo_rt.Model.CudaGraph.Buckets.{bucket_for_lem}

module _ {P D L : Type 0} (b : Backend P D L) where
  delta_position :
      (state : ServingState P D) (token : ℕ)
      → decode_position (decode_delta b state token).1 ≡ decode_position state
  unfolding decode_delta decode_position
  delta_position state token = ground arith

  position_lem :
      (q : Sequence) (state : ServingState P D) (token : ℕ)
      → decode_position (append_token_result b q state token).1 ≡ decode_position state + 1
  unfolding append_token_result decode_position
  position_lem q state token =
      delta_position
        (record state { generated_token_ids = state.generated_token_ids ++ token ∷ [] }) token
      ∙ omega (arith, length-append state.generated_token_ids (token ∷ []))

  stop_if-position :
      (state : ServingState P D) (result : SampleResult) (after : ServingState P D)
      (rest : List SampleResult × ServingState P D) (ended : Bool) (n : ℕ)
      → decode_position after ≡ decode_position state + 1
      → length rest.0 ≤ n
      → decode_position rest.1 ≡ decode_position after + length rest.0
      → let (results, last) = stop_if b ended result after rest in
        (1 ≤ length results)
        × (length results ≤ suc n)
        × (decode_position last ≡ decode_position state + length results)
  unfolding stop_if
  stop_if-position state result after rest true n h k m = (omega arith, omega arith, h)
  stop_if-position state result after (results, last) false n h k m =
      (omega arith, omega (arith, k), omega (arith, h, m))

  append_tokens-position :
      (q : Sequence) (tokens : List ℕ) (state : ServingState P D)
      → let (results, last) = append_tokens b q tokens state in
        (min 1 (length tokens) ≤ length results)
        × (length results ≤ length tokens)
        × (decode_position last ≡ decode_position state + length results)
  unfolding append_tokens
  append_tokens-position q [] state = (omega arith, omega arith, omega arith)
  append_tokens-position q (token ∷ tokens) state =
      let (result, after) = append_token_result b q state token in
      let (_, fewer, further) = append_tokens-position q tokens after in
      let (some_result, bounded, moved) =
        stop_if-position state result after (append_tokens b q tokens after) after.finished
          (length tokens) (position_lem q state token) fewer further in
      (omega (arith, some_result), bounded, moved)

module _ {P D : Type 0} where
  chunk_length_lem :
      (max_len chunk : ℕ) (q : Sequence) (state : ServingState P D) (position : ℕ)
      → position < max_len
      → let k = chunk_length max_len chunk q state position in
        (position + k ≤ max_len) × (1 ≤ k) × (k ≤ max 1 chunk)
  unfolding chunk_length
  chunk_length_lem max_len chunk q state position h = (omega (arith, h), omega arith, omega arith)

module _ {P D R L : Type 0} (b : Backend P D L) where
  pub decode_chain_lem :
      (g : Runner R L) (max_len chunk : ℕ) (k token pos : ℕ) (r : R)
      → pos + k ≤ max_len
      → (tokens : List ℕ) × (after : R) × (decode_chain b g max_len chunk k token pos r
          ≡ ok (tokens, after))
        × (length tokens ≡ k)
  unfolding decode_chain decode
  decode_chain_lem g max_len chunk zero token pos r h = ([], r, refl, refl)
  decode_chain_lem g max_len chunk (suc k) token pos r h =
      let (bound, found, above, inside) = bucket_for_lem max_len pos (omega (arith, h)) in
      let (l, next) = g.step bound token pos r in
      let (tokens, after, e, n) =
        decode_chain_lem g max_len chunk k (b.argmax l) (pos + 1) next (omega (arith, h)) in
      (b.argmax l ∷ tokens, after, rw (found, e) refl, ap suc n)

  -- A greedy decode step on an unfinished state with no pending token, a generated token and a
  -- position inside the buffers does not raise: it returns at least one token and at most the
  -- decode chunk, or one if that is 0, the position advances by as many, and it stays inside the
  -- buffers or reaches their end.
  pub forward_decode-decode_position :
      (g : Runner R L) (max_len chunk : ℕ) (q : Sequence) (state : ServingState P D) (r : R)
      → is_greedy q ≡ true
      → state.finished ≡ false
      → state.pending_token_id ≡ none
      → 0 < length state.generated_token_ids
      → decode_position state < max_len
      → (results : List SampleResult) × (last : ServingState P D) × (after : R) × (forward_decode b
            g max_len chunk q state r
          ≡ ok (results, last, after))
        × (1 ≤ length results)
        × (length results ≤ max 1 chunk)
        × (decode_position last ≡ decode_position state + length results)
        × (decode_position last ≤ max_len)
  unfolding forward_decode decode_next decode_greedy
  forward_decode-decode_position g max_len chunk q state r greedy live none_pending begun inside =
      let position = decode_position state in
      let k = chunk_length max_len chunk q state position in
      let (fits, positive, small) = chunk_length_lem max_len chunk q state position inside in
      let (tokens, after, ran, n) =
        decode_chain_lem g max_len chunk k (last_generated state) position r fits in
      let (some_result, bounded, moved) = append_tokens-position b q tokens state in
      let (results, last) = append_tokens b q tokens state in
      let nonzero : (length state.generated_token_ids == 0) ≡ false = ground (arith, begun) in
      let room : leb max_len position ≡ false = ground (arith, inside) in
      (
        results,
        last,
        after,
        simp (live, none_pending, nonzero, room, greedy, ran),
        omega (arith, some_result, n, positive),
        omega (arith, bounded, n, small),
        moved,
        omega (arith, moved, bounded, n, fits),
      )
