-- ===== src/Core/Runtime/Execute/Tokens.antt =====
-- What the tokens of a decode step do to their sequence and to the metrics.
use solo_rt.Prelude.{
  ℕ, ◌+◌, ◌≤◌, ◌<◌, ◌≡◌, refl, sym, ap, ◌∙◌, inl, inr, false, List, [], ◌∷◌, ◌++◌, append-nil,
  append_assoc, length, length-append, Bool-cases, List-cases, arith,
}
use mathlib.Core.List.{flatten}
use solo_rt.Cache.BlockHash.{Text}
use solo_rt.Core.Sequence.{Sequence, generated_tokens, is_terminal, mark_finished}
use solo_rt.Core.Metrics.{RuntimeMetrics, record_token}
use solo_rt.Core.Runtime.{SampleResult}
use solo_rt.Core.Runtime.Execute.{accept, say, must_stop, text_of, take_samples}

-- A sequence that may still run has fewer tokens than it may have, one that may not at most as many.
unfoldable pub IsBounded : Sequence → Type 0
IsBounded q =
    (length q.output_ids ≤ q.max_new_tokens)
    × (is_terminal q ≡ false → length q.output_ids < q.max_new_tokens)

finished-IsBounded :
    (now : ℕ) (q : Sequence)
    → length q.output_ids ≤ q.max_new_tokens
    → IsBounded (mark_finished now q)
unfolding IsBounded mark_finished is_terminal
finished-IsBounded now q h = (h, λ e. ground (arith, e))

length-accept :
    (sample : SampleResult) (q : Sequence)
    → length (accept sample q).output_ids ≡ length q.output_ids + 1
unfolding accept say
length-accept sample q = omega (arith, length-append q.output_ids (sample.token_id ∷ []))

accept-IsBounded :
    (sample : SampleResult) (q : Sequence)
    → length q.output_ids < q.max_new_tokens
    → must_stop sample (accept sample q) ≡ false
    → IsBounded (accept sample q)
unfolding IsBounded accept say must_stop generated_tokens
accept-IsBounded sample q h go_on = (
  omega (arith, h, length-append q.output_ids (sample.token_id ∷ [])),
  λ live. ground (arith, h, go_on, length-append q.output_ids (sample.token_id ∷ [])),
)

at_most :
    (sample : SampleResult) (q : Sequence)
    → length q.output_ids < q.max_new_tokens
    → length (accept sample q).output_ids ≤ (accept sample q).max_new_tokens
unfolding accept say
at_most sample q h = omega (arith, h, length-append q.output_ids (sample.token_id ∷ []))

room_left :
    (q : Sequence) → IsBounded q → is_terminal q ≡ false → length q.output_ids < q.max_new_tokens
unfolding IsBounded
room_left q h live = h.1 live

-- If a sequence holds at most max_new_tokens tokens, and fewer while it is neither finished nor
-- cancelled, then the same is true after the loop of _execute_batch over any list of samples,
-- however many the executor returned.
pub take_samples-IsBounded :
    (now : ℕ) (samples : List SampleResult) (q : Sequence) (m : RuntimeMetrics)
    → IsBounded q
    → IsBounded (take_samples now samples q m).1
unfolding take_samples
take_samples-IsBounded now [] q m h = h
take_samples-IsBounded now (sample ∷ samples) q m h = elim (Bool-cases (is_terminal q)) [
  | inl t ↦ rw t h
  | inr live ↦
      let longer = accept sample q in
      let room = room_left q h live in
      elim (Bool-cases (must_stop sample longer)) [
        | inl stop ↦ rw (live, stop) (finished-IsBounded now longer (at_most sample q room))
        | inr go_on ↦
            rw (live, go_on)
              (take_samples-IsBounded now samples longer (record_token now q.seq_id m)
                (accept-IsBounded sample q room go_on))
      ]
]

-- What a run of the loop adds, from a sequence and metrics to others, and the texts it yields.
unfoldable pub Adds : Sequence → RuntimeMetrics → List Text × Sequence × RuntimeMetrics → Type 0
Adds q m (texts, last, metrics) =
    (last.metadata.response_text ≡ q.metadata.response_text ++ flatten texts)
    × (metrics.tokens_generated + length q.output_ids ≡ m.tokens_generated + length last.output_ids)
    × ((ids : List ℕ) × (last.output_ids ≡ q.output_ids ++ ids))
    × (last.seq_id ≡ q.seq_id)

flatten-text_of :
    (sample : SampleResult) (texts : List Text)
    → flatten (text_of sample ++ texts) ≡ sample.text ++ flatten texts
unfolding text_of flatten
flatten-text_of sample texts = elim (List-cases sample.text) [
  | inl e ↦ rw (text_of, e) refl
  | inr (c, cs, e) ↦ rw (text_of, e) (ap (λ t. t ++ flatten texts) e)
]

Adds-none : (q : Sequence) (m : RuntimeMetrics) → Adds q m ([], q, m)
unfolding Adds flatten
Adds-none q m =
    (sym (append-nil q.metadata.response_text), refl, ([], sym (append-nil q.output_ids)), refl)

Adds-one :
    (now : ℕ) (sample : SampleResult) (q : Sequence) (m : RuntimeMetrics)
    → Adds q m (text_of sample, mark_finished now (accept sample q), record_token now q.seq_id m)
unfolding Adds accept say mark_finished record_token flatten
Adds-one now sample q m = (
  ap (λ l. q.metadata.response_text ++ l)
      (sym (append-nil sample.text)
        ∙ sym (flatten-text_of sample [])
        ∙ ap flatten (append-nil (text_of sample))),
  omega (arith, length-append q.output_ids (sample.token_id ∷ [])),
  (sample.token_id ∷ [], refl),
  refl,
)

Adds-more :
    (now : ℕ) (sample : SampleResult) (q : Sequence) (m : RuntimeMetrics)
    (out : List Text × Sequence × RuntimeMetrics)
    → Adds (accept sample q) (record_token now q.seq_id m) out
    → Adds q m (text_of sample ++ out.0, out.1, out.2)
unfolding Adds accept say record_token
Adds-more now sample q m (texts, last, metrics) (said, counted, (ids, more), same) = (
  said
      ∙ append_assoc q.metadata.response_text sample.text (flatten texts)
      ∙ ap (λ l. q.metadata.response_text ++ l) (sym (flatten-text_of sample texts)),
  omega (arith, counted, length-append q.output_ids (sample.token_id ∷ [])),
  (sample.token_id ∷ ids, more ∙ append_assoc q.output_ids (sample.token_id ∷ []) ids),
  same,
)

-- The texts that the loop of _execute_batch yields are together exactly what the response text
-- grows by, the token counter grows by the number of tokens appended to the output, the old output
-- is a prefix of the new one, and the sequence keeps its id.
pub take_samples-Adds :
    (now : ℕ) (samples : List SampleResult) (q : Sequence) (m : RuntimeMetrics)
    → Adds q m (take_samples now samples q m)
unfolding take_samples
take_samples-Adds now [] q m = Adds-none q m
take_samples-Adds now (sample ∷ samples) q m = elim (Bool-cases (is_terminal q)) [
  | inl t ↦ rw t (Adds-none q m)
  | inr live ↦
      let longer = accept sample q in
      elim (Bool-cases (must_stop sample longer)) [
        | inl stop ↦ rw (live, stop) (Adds-one now sample q m)
        | inr go_on ↦
            rw (live, go_on)
              (Adds-more now sample q m
                (take_samples now samples longer (record_token now q.seq_id m))
                (take_samples-Adds now samples longer (record_token now q.seq_id m)))
      ]
]
