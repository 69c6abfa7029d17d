-- ===== src/Model/Round/Emitted.antt =====
-- What a round appends to the generated tokens.
use solo_rt.Prelude.{
  ℕ, ◌<◌, ◌≡◌, refl, sym, ap, ◌∙◌, inl, inr, Bool, true, false, ◌||◌, List, [], ◌∷◌, ◌++◌,
  append-nil, append_assoc, ◌==◌, length, take, get_or, Bool-cases, arith,
}
use mathlib.Core.Bool.{true≢false}
use solo_rt.Core.Sequence.{Sequence}
use solo_rt.Core.Runtime.{SampleResult}
use solo_rt.Model.Serving.{Backend, ServingState, append_tokens, append_token_result, stop_if}
use solo_rt.Model.Serving.Laws.{generated_lem}
use solo_rt.Model.Round.{
  accepted_count, emit_last, emit_full, emit_partial, emit_round, is_full, has_stopped,
}

abbrev pub ids : List SampleResult → List ℕ
ids [] = []
ids (r ∷ rs) = r.token_id ∷ ids rs

pub ids-append :
    (rs : List SampleResult) (r : SampleResult) → ids (rs ++ r ∷ []) ≡ ids rs ++ r.token_id ∷ []
ids-append [] r = refl
ids-append (x ∷ rs) r = ap (λ l. x.token_id ∷ l) (ids-append rs r)

module _ {P D : Type 0} where
  -- The generated tokens grow by exactly the tokens of the results.
  unfoldable pub Extends : ServingState P D → List SampleResult × ServingState P D → Type 0
  Extends state (results, last) =
      last.generated_token_ids ≡ state.generated_token_ids ++ ids results

module _ {P D L : Type 0} (b : Backend P D L) where
  token_id_lem :
      (q : Sequence) (state : ServingState P D) (token : ℕ)
      → (append_token_result b q state token).0.token_id ≡ token
  unfolding append_token_result
  token_id_lem q state token = refl

  stop_if-Extends :
      (state : ServingState P D) (result : SampleResult) (after : ServingState P D)
      (rest : List SampleResult × ServingState P D) (ended : Bool)
      → after.generated_token_ids ≡ state.generated_token_ids ++ result.token_id ∷ []
      → Extends after rest
      → Extends state (stop_if b ended result after rest)
        × (0 < length (stop_if b ended result after rest).0)
  unfolding stop_if Extends
  stop_if-Extends state result after rest true h k = (h, omega arith)
  stop_if-Extends state result after (results, last) false h k = (
    k
        ∙ ap (λ l. l ++ ids results) h
        ∙ append_assoc state.generated_token_ids (result.token_id ∷ []) (ids results),
    omega arith,
  )

  one_more :
      (q : Sequence) (state : ServingState P D) (token : ℕ)
      → (append_token_result b q state token).1.generated_token_ids
        ≡ state.generated_token_ids ++ (append_token_result b q state token).0.token_id ∷ []
  one_more q state token =
      (generated_lem b q state token).0
      ∙ ap (λ t. state.generated_token_ids ++ t ∷ []) (sym (token_id_lem q state token))

  pub append_tokens-Extends :
      (q : Sequence) (tokens : List ℕ) (state : ServingState P D)
      → Extends state (append_tokens b q tokens state)
  unfolding append_tokens Extends
  append_tokens-Extends q [] state = sym (append-nil state.generated_token_ids)
  append_tokens-Extends q (token ∷ tokens) state =
      let (result, after) = append_token_result b q state token in
      (stop_if-Extends state result after (append_tokens b q tokens after) after.finished
        (one_more q state token) (append_tokens-Extends q tokens after)).0

  pub append_tokens-some :
      (q : Sequence) (tokens : List ℕ) (state : ServingState P D)
      → 0 < length tokens
      → 0 < length (append_tokens b q tokens state).0
  unfolding append_tokens
  append_tokens-some q [] state h = absurd (omega (arith, h))
  append_tokens-some q (token ∷ tokens) state h =
      let (result, after) = append_token_result b q state token in
      (stop_if-Extends state result after (append_tokens b q tokens after) after.finished
        (one_more q state token) (append_tokens-Extends q tokens after)).1

  emit_last-Extends :
      (blocked : Bool) (q : Sequence) (token : ℕ) (state : ServingState P D)
      (out : List SampleResult × ServingState P D)
      → Extends state out
      → Extends state (emit_last b blocked q token out)
  unfolding emit_last Extends
  emit_last-Extends blocked q token state (results, last) h =
      elim (Bool-cases (has_stopped b results last || blocked)) [
        | inl e ↦ rw e h
        | inr e ↦
            let result = (append_token_result b q last token).0 in
            rw e (
              one_more q last token
              ∙ ap (λ l. l ++ result.token_id ∷ []) h
              ∙ append_assoc state.generated_token_ids (ids results) (result.token_id ∷ [])
              ∙ ap (λ l. state.generated_token_ids ++ l) (sym (ids-append results result)))
      ]

  emit_last-some :
      (blocked : Bool) (q : Sequence) (token : ℕ) (out : List SampleResult × ServingState P D)
      → (blocked ≡ true → 0 < length out.0)
      → 0 < length (emit_last b blocked q token out).0
  unfolding emit_last has_stopped
  emit_last-some true q token ([], last) h = absurd (omega (arith, h refl))
  emit_last-some false q token ([], last) h = omega arith
  emit_last-some blocked q token (r ∷ results, last) h =
      elim (Bool-cases (last.finished || blocked)) [
        | inl e ↦ rw e (omega arith)
        | inr e ↦ rw e (omega arith)
      ]

  -- A round on proposals that are not empty.
  pub emit_round-Extends :
      (q : Sequence) (drafts targets : List ℕ) (recovery : ℕ) (state : ServingState P D)
      → 0 < length drafts
      → let out = emit_round b q drafts targets recovery state in
        Extends state out × (0 < length out.0)
  unfolding emit_round emit_full emit_partial
  emit_round-Extends q drafts targets recovery state h =
      let accepted = accepted_count drafts targets in
      let prefix = take accepted drafts in
      let full = append_tokens b q drafts state in
      let part = append_tokens b q prefix state in
      elim (Bool-cases (accepted == length drafts)) [
        | inl e ↦ rw e (
          emit_last-Extends (is_full b q full.1) q recovery state full
              (append_tokens-Extends q drafts state),
          emit_last-some (is_full b q full.1) q recovery full
              (λ _. append_tokens-some q drafts state h),
        )
        | inr e ↦ rw e (
          emit_last-Extends false q (get_or targets accepted 0) state part
              (append_tokens-Extends q prefix state),
          emit_last-some false q (get_or targets accepted 0) part
              (λ f. absurd (true≢false (sym f))),
        )
      ]
