-- ===== src/Model/Speculation/Exact.antt =====
-- A speculative step emits only what greedy decoding of the target model would.
use solo_rt.Prelude.{
  ℕ, zero, suc, ◌+◌, ◌-◌, ◌≤◌, ◌<◌, ◌≡◌, refl, sym, ap, subst, ◌∙◌, inl, inr, true, false, none,
  List, [], ◌∷◌, ◌++◌, map, leb, ◌==◌, ==_iff, length, take, drop, get_or, take-length_append,
  drop-length_append, ok, Bool-cases, arith,
}
use solo_rt.Core.Sequence.{Sequence}
use solo_rt.Core.Runtime.{SampleResult}
use solo_rt.Model.Serving.{Backend, ServingState, append_tokens}
use solo_rt.Model.Round.{accepted_count}
use solo_rt.Model.Round.Emitted.{ids, Extends, append_tokens-Extends, append_tokens-some}
use solo_rt.Model.Round.Greedy.{
  IsGreedy, scores, length-scores, greedy_round, greedy_round-IsGreedy, full_round, partial_round,
  IsGreedy-append, Emits, append_tokens-Emits,
}
use solo_rt.Model.CudaGraph.{Runner, decode, is_greedy, decode_position, last_generated}
use solo_rt.Model.CudaGraph.Buckets.{bucket_for_lem}
use solo_rt.Model.CudaGraph.Steps.{decode_chain_lem}
use solo_rt.Model.Speculation.{spec_k, conclude, spec_round, speculate, forward_decode}

one_at : (xs ys : List ℕ) (a : ℕ) → a < length xs → take 1 (drop a (xs ++ ys)) ≡ get_or xs a 0 ∷ []
one_at [] ys a h = absurd (omega (arith, h))
one_at (x ∷ xs) ys zero h = refl
one_at (x ∷ xs) ys (suc a) h = one_at xs ys a (omega (arith, h))

accepted_bound : (drafts targets : List ℕ) → accepted_count drafts targets ≤ length drafts
unfolding accepted_count
accepted_bound [] targets = omega arith
accepted_bound (d ∷ drafts) [] = omega arith
accepted_bound (d ∷ drafts) (t ∷ targets) =
    let h = accepted_bound drafts targets in
    elim (Bool-cases (d == t)) [ inl e ↦ rw e (omega (arith, h)) | inr e ↦ rw e (omega arith) ]

greedy_round-some :
    (next : List ℕ → ℕ) (context drafts : List ℕ) → 0 < length (greedy_round next context drafts)
unfolding greedy_round
greedy_round-some next context [] = omega arith
greedy_round-some next context (d ∷ drafts) = elim (Bool-cases (d == next context)) [
  | inl e ↦ rw e (omega arith)
  | inr e ↦ rw e (omega arith)
]

-- The tokens of the round, from the target's answers with the one after all proposals.
module _ (next : List ℕ → ℕ) (context drafts : List ℕ) where
  abbrev answers : List ℕ
  answers = scores next context drafts ++ next (context ++ drafts) ∷ []

  full_tokens :
      accepted_count drafts (scores next context drafts) ≡ length drafts
      → drafts ++ take 1 (drop (length drafts) answers) ≡ greedy_round next context drafts
  full_tokens h =
      ap (λ n. drafts ++ take 1 (drop n answers)) (sym (length-scores next context drafts))
      ∙ ap (λ l. drafts ++ take 1 l)
          (drop-length_append (scores next context drafts) (next (context ++ drafts) ∷ []))
      ∙ sym (full_round next context drafts h)

  partial_tokens :
      let a = accepted_count drafts (scores next context drafts) in
      (a == length drafts) ≡ false
      → take a drafts ++ take 1 (drop a answers) ≡ greedy_round next context drafts
  partial_tokens h =
      let a = accepted_count drafts (scores next context drafts) in
      let below : a < length (scores next context drafts) = ground (
        arith,
        accepted_bound drafts (scores next context drafts),
        length-scores next context drafts,
        h,
      ) in
      ap (λ l. take a drafts ++ l)
        (one_at (scores next context drafts) (next (context ++ drafts) ∷ []) a below)
      ∙ sym (partial_round next context drafts h)

module _ {P D R Q L : Type 0} (b : Backend P D L) (g : Runner R L) (draft : Runner Q L)
    (verify : List ℕ → ℕ → R → List L × R) (max_len decode_chunk : ℕ) where
  decode-total :
      (token pos : ℕ) (q : Q)
      → pos < max_len
      → (l : L) × (q' : Q) × (decode draft max_len token pos q ≡ ok (l, q'))
  unfolding decode
  decode-total token pos q h =
      let (bound, found, _, _) = bucket_for_lem max_len pos h in
      let (l, after) = draft.step bound token pos q in (l, after, rw found refl)

  conclude_lem :
      (next : List ℕ → ℕ) (context drafts targets : List ℕ) (k n : ℕ) (r : R) (q : Q)
      → length drafts ≡ k
      → n + k < max_len
      → targets ≡ answers next context drafts
      → (q' : Q) × (conclude b g draft verify max_len decode_chunk k n drafts targets r q
          ≡ ok (greedy_round next context drafts, r, q'))
  unfolding conclude
  conclude_lem next context drafts targets k n r q size inside says =
      let (l, after, ran) = decode-total (get_or drafts (k - 1) 0) (n + k) q inside in
      let same : take k targets ≡ scores next context drafts =
        ap (λ m. take m targets) (sym size ∙ sym (length-scores next context drafts))
        ∙ ap (take (length (scores next context drafts))) says
        ∙ take-length_append (scores next context drafts) (next (context ++ drafts) ∷ []) in
      let a = accepted_count drafts (scores next context drafts) in
      elim (Bool-cases (a == k)) [
        | inl e ↦
            let all : a ≡ length drafts = (==_iff a k).0 e ∙ sym size in
            (
              after,
              rw (same, e, ran)
                  (ap (λ ts. ok (ts, r, after))
                    (ap (λ m. drafts ++ take 1 (drop m targets)) (sym size)
                      ∙ ap (λ ts. drafts ++ take 1 (drop (length drafts) ts)) says
                      ∙ full_tokens next context drafts all)),
            )
        | inr e ↦
            let some_rejected : (a == length drafts) ≡ false = ap (λ m. a == m) size ∙ e in
            (
              q,
              rw (same, e)
                  (ap (λ ts. ok (ts, r, q))
                    (ap (λ ts. take a drafts ++ take 1 (drop a ts)) says
                      ∙ partial_tokens next context drafts some_rejected)),
            )
      ]

  -- The target's runner answers each fed token with `next` of the context and the tokens up to it.
  unfoldable pub Answers : (List ℕ → ℕ) → List ℕ → ℕ → ℕ → R → Type 0
  Answers next context last_token n r =
      (drafts : List ℕ)
      → map b.argmax (verify (last_token ∷ drafts) n r).0 ≡ answers next context drafts

  spec_round_lem :
      (next : List ℕ → ℕ) (context : List ℕ) (last_token n : ℕ) (r : R) (q : Q)
      → n + spec_k b g draft verify max_len decode_chunk < max_len
      → Answers next context last_token n r
      → (drafts : List ℕ) × (r' : R) × (q' : Q) × (spec_round b g draft verify max_len decode_chunk
            last_token n r q
          ≡ ok (greedy_round next context drafts, r', q'))
  unfolding spec_round Answers
  spec_round_lem next context last_token n r q inside says =
      let k = spec_k b g draft verify max_len decode_chunk in
      let (drafts, after, ran, size) =
        decode_chain_lem b draft max_len decode_chunk k last_token n q (omega (arith, inside)) in
      let verified = (verify (last_token ∷ drafts) n r).1 in
      let (q', ended) =
        conclude_lem next context drafts (map b.argmax (verify (last_token ∷ drafts) n r).0) k n
          verified after size inside (says drafts) in
      (drafts, verified, q', simp (ran, ended))

  -- For a greedy request with an unfinished state, a generated token, no pending token and room for
  -- the proposals in the buffers, if the scoring of any proposals after the last token answers with
  -- what next gives for the context and the tokens up to each, a decode step of the speculative
  -- graph executor returns without raising: it emits at least one token, the generated tokens grow
  -- by exactly what it emits, and each emitted token is next of the context and the tokens emitted
  -- before it, as in plain greedy decoding, whatever the draft model proposes.
  pub forward_decode-IsGreedy :
      (s : Sequence) (state : ServingState P D) (next : List ℕ → ℕ) (context : List ℕ) (r : R)
      (q : Q)
      → is_greedy s ≡ true
      → state.finished ≡ false
      → state.pending_token_id ≡ none
      → 0 < length state.generated_token_ids
      → decode_position state + spec_k b g draft verify max_len decode_chunk + 2 < max_len
      → Answers next context (last_generated state) (decode_position state) r
      → (results : List SampleResult) × (last : ServingState P D) × (r' : R) × (q' : Q)
        × (forward_decode b g draft verify max_len decode_chunk s state r q
            ≡ ok (results, last, r', q'))
        × IsGreedy next context (ids results)
        × (0 < length results)
        × (last.generated_token_ids ≡ state.generated_token_ids ++ ids results)
  unfolding forward_decode speculate Emits Extends
  forward_decode-IsGreedy s state next context r q greedy live none_pending begun inside says =
      let (drafts, r', q', ran) =
        spec_round_lem next context (last_generated state) (decode_position state) r q
          (omega (arith, inside)) says in
      let tokens = greedy_round next context drafts in
      let (results, last) = append_tokens b s tokens state in
      let ((rest, split), _) = append_tokens-Emits b s tokens state in
      let nonzero : (length state.generated_token_ids == 0) ≡ false = ground (arith, begun) in
      let room : leb max_len
            (decode_position state + spec_k b g draft verify max_len decode_chunk + 2)
          ≡ false =
        ground (arith, inside) in
      (
        results,
        last,
        r',
        q',
        simp (live, none_pending, nonzero, greedy, room, ran),
        IsGreedy-append next context (ids results) rest
            (subst (IsGreedy next context) split (greedy_round-IsGreedy next context drafts)),
        append_tokens-some b s tokens state (greedy_round-some next context drafts),
        append_tokens-Extends b s tokens state,
      )
