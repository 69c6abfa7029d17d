-- ===== src/Model/Round/Verified.antt =====
-- A speculative round emits what one call of the target model verifies.
use solo_rt.Prelude.{
  ℕ, ◌<◌, ◌≡◌, refl, ap, ◌∙◌, ◌⊎◌, inl, inr, Bool, true, false, List, [], ◌∷◌, ◌++◌, if◌then◌else◌,
  ◌==◌, ==_iff, length, take, get_or, Bool-cases, arith, subst, sym,
}
use mathlib.Core.Bool.{true≢false}
use solo_rt.Core.Sequence.{Sequence}
use solo_rt.Core.Runtime.{SampleResult}
use solo_rt.Model.Serving.{Backend, ServingState, append_tokens, append_token_result}
use solo_rt.Model.Round.{
  accepted_count, emit_last, emit_full, emit_partial, emit_round, is_full, has_stopped,
}
use solo_rt.Model.Round.Emitted.{ids, ids-append, Extends, emit_round-Extends}
use solo_rt.Model.Round.Greedy.{IsPrefix, Emits, append_tokens-Emits, emit_last_lem}

-- The proposals up to the first that is not the target's token at its place, and that token of the
-- target; behind them all, the recovery token.
unfoldable pub verified : List ℕ → List ℕ → ℕ → List ℕ
verified [] targets recovery = recovery ∷ []
verified (d ∷ drafts) [] recovery = []
verified (d ∷ drafts) (t ∷ targets) recovery =
    let rest = verified drafts targets recovery in if d == t then t ∷ rest else t ∷ []

verified_full :
    (drafts targets : List ℕ) (recovery : ℕ)
    → length targets ≡ length drafts
    → accepted_count drafts targets ≡ length drafts
    → verified drafts targets recovery ≡ drafts ++ recovery ∷ []
unfolding verified accepted_count
verified_full [] targets recovery size h = refl
verified_full (d ∷ drafts) [] recovery size h = absurd (omega (arith, size))
verified_full (d ∷ drafts) (t ∷ targets) recovery size h = elim (Bool-cases (d == t)) [
  | inl e ↦
      let more : accepted_count drafts targets ≡ length drafts = ground (arith, h, e) in
      rw e (
        ap (λ l. t ∷ l) (verified_full drafts targets recovery (omega (arith, size)) more)
        ∙ ap (λ x. x ∷ drafts ++ recovery ∷ []) (sym ((==_iff d t).0 e)))
  | inr e ↦ absurd (ground (arith, h, e))
]

verified_partial :
    (drafts targets : List ℕ) (recovery : ℕ)
    → length targets ≡ length drafts
    → (accepted_count drafts targets == length drafts) ≡ false
    → verified drafts targets recovery
      ≡ take (accepted_count drafts targets) drafts
        ++ get_or targets (accepted_count drafts targets) 0 ∷ []
unfolding verified accepted_count
verified_partial [] targets recovery size h = absurd (true≢false h)
verified_partial (d ∷ drafts) [] recovery size h = absurd (omega (arith, size))
verified_partial (d ∷ drafts) (t ∷ targets) recovery size h = elim (Bool-cases (d == t)) [
  | inl e ↦
      let less : (accepted_count drafts targets == length drafts) ≡ false = ground (arith, h, e) in
      let a = accepted_count drafts targets in
      rw e (
        ap (λ l. t ∷ l) (verified_partial drafts targets recovery (omega (arith, size)) less)
        ∙ ap (λ x. x ∷ take a drafts ++ get_or targets a 0 ∷ []) (sym ((==_iff d t).0 e)))
  | inr e ↦ rw e refl
]

module _ {P D L : Type 0} (b : Backend P D L) where
  -- The round emitted these tokens, or as many of them as the sequence may have.
  unfoldable pub EmitsUpTo : Sequence → List ℕ → List SampleResult × ServingState P D → Type 0
  EmitsUpTo q tokens (results, last) =
      IsPrefix (ids results) tokens
      × ((ids results ≡ tokens) ⊎ (last.finished ≡ true) ⊎ (is_full b q last ≡ true))

  has_stopped-finished :
      (results : List SampleResult) (last : ServingState P D)
      → has_stopped b results last ≡ true
      → last.finished ≡ true
  unfolding has_stopped
  has_stopped-finished [] last h = absurd (true≢false (sym h))
  has_stopped-finished (r ∷ results) last h = h

  emit_last-EmitsUpTo :
      (blocked : Bool) (q : Sequence) (token : ℕ) (tokens : List ℕ)
      (out : List SampleResult × ServingState P D)
      → Emits b tokens out
      → (blocked ≡ true → is_full b q out.1 ≡ true)
      → EmitsUpTo q (tokens ++ token ∷ []) (emit_last b blocked q token out)
  unfolding emit_last EmitsUpTo Emits append_token_result
  emit_last-EmitsUpTo blocked q token tokens (results, state) h full =
      let prefix = emit_last_lem b blocked q token tokens (results, state) h in
      elim (Bool-cases (has_stopped b results state)) [
        | inl e ↦ (prefix, rw e (inr (inl (has_stopped-finished results state e))))
        | inr e ↦ elim (Bool-cases blocked) [
          | inl k ↦ (prefix, rw (e, k) (inr (inr (full k))))
          | inr k ↦ (
            prefix,
            rw (e, k)
                (inl (
                  ids-append results (append_token_result b q state token).0
                  ∙ ap (λ l. l ++ token ∷ []) (h.1 e))),
          )
        ]
      ]

  -- For proposals that are not empty and as many tokens of the target, the round emits at least one
  -- token, the generated tokens grow by exactly what it emits, and it emits the proposals up to the
  -- first that is not the target's token at its place, then that token, or, where all are, the
  -- recovery token; it stops before only when the sequence has finished or is full.
  pub emit_round-EmitsUpTo :
      (q : Sequence) (drafts targets : List ℕ) (recovery : ℕ) (state : ServingState P D)
      → 0 < length drafts
      → length targets ≡ length drafts
      → let out = emit_round b q drafts targets recovery state in
        Extends state out × (0 < length out.0) × EmitsUpTo q (verified drafts targets recovery) out
  unfolding emit_round emit_full emit_partial
  emit_round-EmitsUpTo q drafts targets recovery state h size =
      let (grown, more) = emit_round-Extends b q drafts targets recovery state h in
      let a = accepted_count drafts targets in
      let full = append_tokens b q drafts state in
      (
        grown,
        more,
        elim (Bool-cases (a == length drafts)) [
          | inl e ↦ rw e (
              subst
                (λ tokens. EmitsUpTo q tokens (emit_last b (is_full b q full.1) q recovery full))
                (sym (verified_full drafts targets recovery size ((==_iff a (length drafts)).0 e)))
                (emit_last-EmitsUpTo (is_full b q full.1) q recovery drafts full
                  (append_tokens-Emits b q drafts state) (λ k. k)))
          | inr e ↦
              let part = append_tokens b q (take a drafts) state in
              rw e (
                subst (λ tokens. EmitsUpTo q tokens (emit_last b false q (get_or targets a 0) part))
                  (sym (verified_partial drafts targets recovery size e))
                  (emit_last-EmitsUpTo false q (get_or targets a 0) (take a drafts) part
                    (append_tokens-Emits b q (take a drafts) state)
                    (λ k. absurd (true≢false (sym k)))))
        ],
      )
