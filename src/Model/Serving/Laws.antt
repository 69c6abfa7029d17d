-- ===== src/Model/Serving/Laws.antt =====
-- The number of tokens is bounded.
use solo_rt.Prelude.{
  ℕ, ◌≤◌, ◌<◌, ◌≡◌, refl, ap, Bool, true, false, List, [], ◌∷◌, ◌++◌, length, length-append, arith,
  leb,
}
use solo_rt.Core.Sequence.{Sequence}
use solo_rt.Core.Runtime.{SampleResult}
use solo_rt.Model.Serving.{
  Backend, ServingState, decode_delta, append_token_result, append_tokens, stop_if, must_finish,
}

-- A state that may go on has fewer tokens than its sequence may have.
unfoldable pub HasRoom : {P D : Type 0} → Sequence → ServingState P D → Type 0
HasRoom q state =
    (length state.generated_token_ids ≤ q.max_new_tokens)
    × (state.finished ≡ false → length state.generated_token_ids < q.max_new_tokens)

module _ {P D L : Type 0} (b : Backend P D L) where
  decode_delta_keeps :
      (state : ServingState P D) (token : ℕ)
      → (decode_delta b state token).1.generated_token_ids ≡ state.generated_token_ids
  unfolding decode_delta
  decode_delta_keeps state token = ground arith

  stop_if-HasRoom :
      (q : Sequence) (result : SampleResult) (after : ServingState P D)
      (rest : List SampleResult × ServingState P D) (ended : Bool)
      → after.finished ≡ ended
      → HasRoom q after
      → (after.finished ≡ false → HasRoom q rest.1)
      → HasRoom q (stop_if b ended result after rest).1
  unfolding stop_if
  stop_if-HasRoom q result after rest true e h k = h
  stop_if-HasRoom q result after rest false e h k = k e

  pub generated_lem :
      (q : Sequence) (state : ServingState P D) (token : ℕ)
      → ((append_token_result b q state token).1.generated_token_ids
          ≡ state.generated_token_ids ++ token ∷ [])
        × ((append_token_result b q state token).1.finished ≡ false
            → leb q.max_new_tokens (length (state.generated_token_ids ++ token ∷ [])) ≡ false)
  unfolding append_token_result must_finish
  generated_lem q state token = (
    decode_delta_keeps
        (record state { generated_token_ids = state.generated_token_ids ++ token ∷ [] }) token,
    λ f. ground (arith, f),
  )

  -- From an unfinished state with fewer than max_new_tokens tokens, appending any run of tokens
  -- leaves at most max_new_tokens of them, and fewer unless the state is then finished.
  pub append_tokens-HasRoom :
      (q : Sequence) (tokens : List ℕ) (state : ServingState P D)
      → HasRoom q state
      → state.finished ≡ false
      → HasRoom q (append_tokens b q tokens state).1
  unfolding append_tokens HasRoom
  append_tokens-HasRoom q [] state h live = h
  append_tokens-HasRoom q (token ∷ tokens) state h live =
      let after = (append_token_result b q state token).1 in
      let (more, room) = generated_lem q state token in
      let bounded : length after.generated_token_ids ≤ q.max_new_tokens =
        omega
          (arith, h.1 live, ap length more, length-append state.generated_token_ids (token ∷ [])) in
      let inside : HasRoom q after = (bounded, λ f. ground (arith, room f, ap length more)) in
      stop_if-HasRoom q (append_token_result b q state token).0 after
        (append_tokens b q tokens after) after.finished refl inside
        (append_tokens-HasRoom q tokens after inside)
