-- ===== src/Model/Speculation.antt =====
-- src/solort/model/cuda_graph_executor.py: `SpecCudaGraphQwen3Executor`, whose draft model is a second
-- runner. The target's runner scores the proposals in one graph, a parameter here.
pub mod Exact
use solo_rt.Prelude.{
  ℕ, zero, suc, ◌+◌, ◌-◌, max, Bool, true, false, ◌||◌, not, Option, none, some, List, [], ◌∷◌,
  ◌++◌, map, if◌then◌else◌, leb, ◌==◌, length, take, drop, get_or, Result, ok, err,
}
use solo_rt.Prelude.Errors.{◌>>=◌}
use solo_rt.Core.Sequence.{Sequence}
use solo_rt.Core.Runtime.{SampleResult}
use solo_rt.Model.Serving.{Backend, ServingState, append_tokens}
use solo_rt.Model.Round.{accepted_count}
use solo_rt.Model.CudaGraph.{
  Runner, decode, decode_chain, is_greedy, decode_position, last_generated,
}
use solo_rt.Model.CudaGraph

module _ {P D R Q L : Type 0} (b : Backend P D L) (g : Runner R L) (draft : Runner Q L)
    (verify : List ℕ → ℕ → R → List L × R) (max_len decode_chunk : ℕ) where
  -- `_spec_k`
  unfoldable pub spec_k : ℕ
  spec_k = max 1 b.speculative_tokens

  -- What follows the verification: after a full acceptance the draft model also runs on its last
  -- proposal.
  unfoldable pub conclude : ℕ → ℕ → List ℕ → List ℕ → R → Q → Result (List ℕ × R × Q)
  unfolding accepted_count decode
  conclude k n drafts targets r q =
      let a = accepted_count drafts (take k targets) in
      if a == k
      then (decode draft max_len (get_or drafts (k - 1) 0) (n + k) q >>= λ (_, last).
          ok (drafts ++ take 1 (drop k targets), r, last))
      else ok (take a drafts ++ take 1 (drop a targets), r, q)

  -- `_spec_round`
  unfoldable pub spec_round : ℕ → ℕ → R → Q → Result (List ℕ × R × Q)
  unfolding spec_k decode_chain conclude
  spec_round last_token n r q =
      decode_chain b draft max_len decode_chunk spec_k last_token n q >>= λ (drafts, after).
      let (logits, verified) = verify (last_token ∷ drafts) n r in
      conclude spec_k n drafts (map b.argmax logits) verified after

  -- The step of the parent class, on its own runner.
  unfoldable pub plain_decode :
      Sequence → ServingState P D → R → Q → Result (List SampleResult × ServingState P D × R × Q)
  unfolding CudaGraph.forward_decode
  plain_decode s state r q =
      CudaGraph.forward_decode b g max_len decode_chunk s state r >>= λ (results, last, after).
      ok (results, last, after, q)

  unfoldable pub speculate :
      Sequence → ServingState P D → R → Q → Result (List SampleResult × ServingState P D × R × Q)
  unfolding spec_round append_tokens decode_position last_generated
  speculate s state r q =
      spec_round (last_generated state) (decode_position state) r q >>= λ (tokens, r1, q1).
      let (results, last) = append_tokens b s tokens state in ok (results, last, r1, q1)

  -- `forward_decode`, on the state that `_ensure_state` gives.
  unfoldable pub forward_decode :
      Sequence → ServingState P D → R → Q → Result (List SampleResult × ServingState P D × R × Q)
  unfolding plain_decode speculate is_greedy spec_k decode_position
  forward_decode s state r q =
      let waits : Bool = elim state.pending_token_id [ none ↦ false | some t ↦ true ] in
      if state.finished
      then ok (record { token_id = b.eos_token_id; text = []; is_last = true } ∷ [], state, r, q)
      else if waits || (length state.generated_token_ids == 0)
      then plain_decode s state r q
      else if not (is_greedy s) || leb max_len (decode_position state + spec_k + 2)
      then plain_decode s state r q
      else speculate s state r q

  -- `forward_prefill`; the flag is `_draft_prefilled`.
  unfoldable pub forward_prefill :
      Sequence → List ℕ → ServingState P D → Bool → R → Q → Result (ServingState P D × Bool × R × Q)
  unfolding CudaGraph.forward_prefill CudaGraph.prefill_bound
  forward_prefill s input_ids state prefilled r q =
      let prompt = take s.num_prompt_tokens s.input_ids in
      CudaGraph.forward_prefill b g max_len decode_chunk s input_ids state r >>= λ (next, r1).
      elim next.pending_token_id [
        | none ↦ ok (next, prefilled, r1, q)
        | some t ↦
            if prefilled
            then ok (next, true, r1, q)
            else (CudaGraph.prefill_bound max_len (length prompt) >>= λ bound.
                ok (next, true, r1, (draft.prefill bound prompt q).1))
      ]
