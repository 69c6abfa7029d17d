-- ===== src/Model/Round/Greedy.antt =====
-- Greedy decoding with a model `next`, and the tokens that a round emits.
use solo_rt.Prelude.{
  ℕ, suc, ◌≡◌, refl, sym, ap, ◌∙◌, inl, inr, Bool, true, false, ◌||◌, List, [], ◌∷◌, ◌++◌,
  append-nil, append_assoc, if◌then◌else◌, ◌==◌, ==_iff, length, take, get_or, Bool-cases, arith,
}
use mathlib.Core.Bool.{true≢false}
use solo_rt.Core.Sequence.{Sequence}
use solo_rt.Core.Runtime.{SampleResult}
use solo_rt.Model.Serving.{Backend, ServingState, append_tokens, append_token_result, stop_if}
use solo_rt.Model.Round.Emitted.{ids, ids-append}
use solo_rt.Model.Round.{accepted_count, emit_last, has_stopped}

-- Each token is the one that the target model, `next`, gives after all before it.
abbrev pub IsGreedy : (List ℕ → ℕ) → List ℕ → List ℕ → Type 0
IsGreedy next context [] = Unit
IsGreedy next context (t ∷ ts) = (t ≡ next context) × IsGreedy next (context ++ t ∷ []) ts

-- The target's token before each proposal, the proposals before it given.
abbrev pub scores : (List ℕ → ℕ) → List ℕ → List ℕ → List ℕ
scores next context [] = []
scores next context (d ∷ drafts) = next context ∷ scores next (context ++ d ∷ []) drafts

abbrev pub IsPrefix : List ℕ → List ℕ → Type 0
IsPrefix xs ys = (rest : List ℕ) × (ys ≡ xs ++ rest)

pub length-scores :
    (next : List ℕ → ℕ) (context drafts : List ℕ)
    → length (scores next context drafts) ≡ length drafts
length-scores next context [] = refl
length-scores next context (d ∷ drafts) = ap suc (length-scores next (context ++ d ∷ []) drafts)

pub IsGreedy-append :
    (next : List ℕ → ℕ) (context xs rest : List ℕ)
    → IsGreedy next context (xs ++ rest)
    → IsGreedy next context xs
IsGreedy-append next context [] rest h = tt
IsGreedy-append next context (x ∷ xs) rest h =
    (h.0, IsGreedy-append next (context ++ x ∷ []) xs rest h.1)

-- The tokens of a round: the proposals up to the first that the target rejects, and its own there.
unfoldable pub greedy_round : (List ℕ → ℕ) → List ℕ → List ℕ → List ℕ
greedy_round next context [] = next context ∷ []
greedy_round next context (d ∷ drafts) =
    let rest = greedy_round next (context ++ d ∷ []) drafts in
    if d == next context then d ∷ rest else next context ∷ []

pub greedy_round-IsGreedy :
    (next : List ℕ → ℕ) (context drafts : List ℕ)
    → IsGreedy next context (greedy_round next context drafts)
unfolding greedy_round
greedy_round-IsGreedy next context [] = (refl, tt)
greedy_round-IsGreedy next context (d ∷ drafts) = elim (Bool-cases (d == next context)) [
  | inl e ↦
      rw e ((==_iff d (next context)).0 e, greedy_round-IsGreedy next (context ++ d ∷ []) drafts)
  | inr e ↦ rw e (refl, tt)
]

pub full_round :
    (next : List ℕ → ℕ) (context drafts : List ℕ)
    → accepted_count drafts (scores next context drafts) ≡ length drafts
    → greedy_round next context drafts ≡ drafts ++ next (context ++ drafts) ∷ []
unfolding greedy_round accepted_count
full_round next context [] h = ap (λ c. next c ∷ []) (sym (append-nil context))
full_round next context (d ∷ drafts) h = elim (Bool-cases (d == next context)) [
  | inl e ↦
      let more : accepted_count drafts (scores next (context ++ d ∷ []) drafts) ≡ length drafts =
        ground (arith, h, e) in
      rw e (
        ap (λ l. d ∷ l)
          (full_round next (context ++ d ∷ []) drafts more
            ∙ ap (λ c. drafts ++ next c ∷ []) (append_assoc context (d ∷ []) drafts)))
  | inr e ↦ absurd (ground (arith, h, e))
]

pub partial_round :
    (next : List ℕ → ℕ) (context drafts : List ℕ)
    → let a = accepted_count drafts (scores next context drafts) in
      (a == length drafts) ≡ false
      → greedy_round next context drafts
        ≡ take a drafts ++ get_or (scores next context drafts) a 0 ∷ []
unfolding greedy_round accepted_count
partial_round next context [] h = absurd (true≢false h)
partial_round next context (d ∷ drafts) h = elim (Bool-cases (d == next context)) [
  | inl e ↦
      let less : (accepted_count drafts (scores next (context ++ d ∷ []) drafts) == length drafts)
          ≡ false =
        ground (arith, h, e) in
      rw e (ap (λ l. d ∷ l) (partial_round next (context ++ d ∷ []) drafts less))
  | inr e ↦ rw e refl
]

module _ {P D L : Type 0} (b : Backend P D L) where
  unfoldable pub Emits : List ℕ → List SampleResult × ServingState P D → Type 0
  Emits tokens (results, last) =
      IsPrefix (ids results) tokens × (has_stopped b results last ≡ false → ids results ≡ tokens)

  has_stopped-tail :
      (results : List SampleResult) (last : ServingState P D)
      → last.finished ≡ false
      → has_stopped b results last ≡ false
  unfolding has_stopped
  has_stopped-tail [] last f = refl
  has_stopped-tail (r ∷ results) last f = f

  stop_if-Emits :
      (token : ℕ) (tokens : List ℕ) (result : SampleResult) (after : ServingState P D)
      (rest : List SampleResult × ServingState P D) (ended : Bool)
      → after.finished ≡ ended
      → result.token_id ≡ token
      → Emits tokens rest
      → Emits (token ∷ tokens) (stop_if b ended result after rest)
  unfolding stop_if Emits has_stopped
  stop_if-Emits token tokens result after rest true e t h =
      ((tokens, ap (λ x. x ∷ tokens) (sym t)), λ f. absurd (true≢false (sym e ∙ f)))
  stop_if-Emits token tokens result after (results, last) false e t ((more, split), all) = (
    (more, ap (λ l. token ∷ l) split ∙ ap (λ x. x ∷ ids results ++ more) (sym t)),
    λ f. ap (λ x. x ∷ ids results) t ∙ ap (λ l. token ∷ l) (all (has_stopped-tail results last f)),
  )

  pub append_tokens-Emits :
      (q : Sequence) (tokens : List ℕ) (state : ServingState P D)
      → Emits tokens (append_tokens b q tokens state)
  unfolding append_tokens Emits append_token_result has_stopped
  append_tokens-Emits q [] state = (([], refl), λ _. refl)
  append_tokens-Emits q (token ∷ tokens) state =
      let after = (append_token_result b q state token).1 in
      stop_if-Emits token tokens (append_token_result b q state token).0 after
        (append_tokens b q tokens after) after.finished refl refl
        (append_tokens-Emits q tokens after)

  pub emit_last_lem :
      (blocked : Bool) (q : Sequence) (token : ℕ) (tokens : List ℕ)
      (out : List SampleResult × ServingState P D)
      → Emits tokens out
      → IsPrefix (ids (emit_last b blocked q token out).0) (tokens ++ token ∷ [])
  unfolding emit_last Emits append_token_result
  emit_last_lem blocked q token tokens (results, state) ((more, split), all) =
      elim (Bool-cases (has_stopped b results state || blocked)) [
        | inl e ↦ rw e (
          more ++ token ∷ [],
          ap (λ l. l ++ token ∷ []) split ∙ append_assoc (ids results) more (token ∷ []),
        )
        | inr e ↦
            let live : has_stopped b results state ≡ false = ground (arith, e) in
            rw e (
              [],
              sym (
                  append-nil (ids (results ++ (append_token_result b q state token).0 ∷ []))
                  ∙ ids-append results (append_token_result b q state token).0
                  ∙ ap (λ l. l ++ token ∷ []) (all live)),
            )
      ]
