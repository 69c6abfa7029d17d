-- ===== src/Model/Round.antt =====
-- What a speculative round emits, in src/solort/model/executor.py: the accepted proposals and one
-- more token of the target model.
pub mod Emitted
pub mod Greedy
pub mod Verified
use solo_rt.Prelude.{
  ℕ, zero, suc, ◌+◌, ◌-◌, ◌≤◌, ◌<◌, ◌≡◌, refl, sym, subst, ap, ◌∙◌, inl, inr, Bool, true, false,
  ◌||◌, Option, none, some, List, [], ◌∷◌, ◌++◌, append-nil, append_assoc, map, if◌then◌else◌, ltb,
  leb, ◌==◌, ==_iff, length, take, get_or, Bool-cases, arith,
}
use solo_rt.Core.Sequence.{Sequence}
use solo_rt.Core.Runtime.{SampleResult}
use solo_rt.Model.Serving.{Backend, ServingState, append_tokens, append_token_result, stop_if}

-- The loop that counts how many proposals the target model would have made itself.
unfoldable pub accepted_count : List ℕ → List ℕ → ℕ
accepted_count (d ∷ drafts) (t ∷ targets) =
    let rest = accepted_count drafts targets in if d == t then suc rest else 0
accepted_count _ _ = 0

module _ {P D L : Type 0} (b : Backend P D L) where
  -- The loop has returned: it appended a token, and the state is finished.
  unfoldable pub has_stopped : List SampleResult → ServingState P D → Bool
  has_stopped [] state = false
  has_stopped (result ∷ results) state = state.finished

  -- One more token, unless the loop has returned or the sequence is full.
  unfoldable pub emit_last :
      Bool
      → Sequence
      → ℕ
      → List SampleResult × ServingState P D
      → List SampleResult × ServingState P D
  unfolding has_stopped
  emit_last blocked q token (results, state) =
      let (result, after) = append_token_result b q state token in
      if has_stopped results state || blocked
      then (results, state)
      else (results ++ result ∷ [], after)

  unfoldable pub is_full : Sequence → ServingState P D → Bool
  is_full q state = leb q.max_new_tokens (length state.generated_token_ids)

  -- All proposals accepted: they are appended, then the recovery token.
  unfoldable pub emit_full :
      Sequence → List ℕ → ℕ → ServingState P D → List SampleResult × ServingState P D
  unfolding emit_last is_full
  emit_full q drafts recovery state =
      let out = append_tokens b q drafts state in emit_last (is_full q out.1) q recovery out

  -- The proposals before the first rejected one, then the target's correction.
  unfoldable pub emit_partial :
      Sequence → List ℕ → ℕ → ServingState P D → List SampleResult × ServingState P D
  unfolding emit_last
  emit_partial q prefix correction state =
      emit_last false q correction (append_tokens b q prefix state)

  unfoldable pub emit_round :
      Sequence → List ℕ → List ℕ → ℕ → ServingState P D → List SampleResult × ServingState P D
  unfolding emit_full emit_partial accepted_count
  emit_round q drafts targets recovery state =
      let accepted = accepted_count drafts targets in
      if accepted == length drafts
      then emit_full q drafts recovery state
      else emit_partial q (take accepted drafts) (get_or targets accepted 0) state
