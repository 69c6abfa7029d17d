-- ===== src/Model/Serving/Detokenizer.antt =====
-- `_decode_delta` over a run of tokens: the text that is streamed is the text of the tokens.
use solo_rt.Prelude.{
  ℕ, zero, suc, ◌+◌, ◌-◌, ◌≤◌, ◌<◌, ◌≡◌, refl, sym, ap, ◌∙◌, inl, inr, Bool, true, false, ◌||◌,
  List, [], ◌∷◌, ◌++◌, append_assoc, append-nil, length, length-append, length-drop, ◌⊎◌, take,
  drop, take-append-drop, drop-drop, drop-length_append, Bool-cases, List-cases, arith, ◌==◌, leb,
  get_elem?, some, none,
}
use mathlib.Core.Bool.{true≢false}
use solo_rt.Prelude.Sort.{All}
use solo_rt.Cache.BlockHash.{Text}
use solo_rt.Core.Sequence.{Sequence}
use solo_rt.Core.Runtime.{SampleResult}
use solo_rt.Model.Serving.{
  Backend, ServingState, decode_delta, ends_incomplete, append_token_result, append_tokens, stop_if,
}

-- The text of the tokens that the detokenizer has read.
unfoldable pub shown_text : {P D L : Type 0} → Backend P D L → ServingState P D → Text
shown_text b state = b.decode (take state.detok_read_offset state.generated_token_ids)

-- The window of the detokenizer lies inside the tokens, and neither the text of what it has read
-- nor that of the window's part of it ends within a character.
unfoldable pub IsWindow : {P D L : Type 0} → Backend P D L → ServingState P D → Type 0
IsWindow b state =
    let p = state.detok_prefix_offset in
    let r = state.detok_read_offset in
    (p ≤ r)
    × (r ≤ length state.generated_token_ids)
    × (ends_incomplete b (b.decode (take (r - p) (drop p state.generated_token_ids))) ≡ false)
    × (ends_incomplete b (b.decode (take r state.generated_token_ids)) ≡ false)

-- All of the text has been shown, or it ends within a character.
unfoldable pub IsCaughtUp : {P D L : Type 0} → Backend P D L → ServingState P D → Type 0
IsCaughtUp b state =
    (shown_text b state ≡ b.decode state.generated_token_ids)
    ⊎ (ends_incomplete b (b.decode state.generated_token_ids) ≡ true)

-- The texts that a run of tokens streams.
abbrev pub streamed : List SampleResult → Text
streamed [] = []
streamed (result ∷ results) = result.text ++ streamed results

take-append_le {ℓ} : {A : Type ℓ} (n : ℕ) (l m : List A) → n ≤ length l → take n (l ++ m) ≡ take n l
take-append_le zero l m h = refl
take-append_le (suc n) [] m h = absurd (omega (arith, h))
take-append_le (suc n) (x ∷ l) m h = ap (λ k. x ∷ k) (take-append_le n l m (omega (arith, h)))

drop-append_le {ℓ} :
    {A : Type ℓ} (n : ℕ) (l m : List A) → n ≤ length l → drop n (l ++ m) ≡ drop n l ++ m
drop-append_le zero l m h = refl
drop-append_le (suc n) [] m h = absurd (omega (arith, h))
drop-append_le (suc n) (x ∷ l) m h = drop-append_le n l m (omega (arith, h))

slice_split : (p r : ℕ) (l : List ℕ) → p ≤ r → take (r - p) (drop p l) ++ drop r l ≡ drop p l
slice_split p r l h =
    let e : p + (r - p) ≡ r = omega (arith, h) in
    ap (λ k. take (r - p) (drop p l) ++ drop k l) (sym e)
    ∙ ap (λ m. take (r - p) (drop p l) ++ m) (sym (drop-drop p (r - p) l))
    ∙ take-append-drop (r - p) (drop p l)

take_all {ℓ} : {A : Type ℓ} (n : ℕ) (l : List A) → length l ≡ n → take n l ≡ l
take_all zero [] h = refl
take_all (suc n) [] h = refl
take_all zero (x ∷ l) h = absurd (omega (arith, h))
take_all (suc n) (x ∷ l) h = ap (λ m. x ∷ m) (take_all n l (omega (arith, h)))

last_cons {ℓ} :
    {A : Type ℓ} (x : A) (l : List A)
    → 0 < length l
    → get_elem? (x ∷ l) (length (x ∷ l) - 1) ≡ get_elem? l (length l - 1)
last_cons x [] h = absurd (omega (arith, h))
last_cons x (y ∷ l) h =
    let e : length (x ∷ y ∷ l) - 1 ≡ suc (length (y ∷ l) - 1) = omega arith in
    ap (get_elem? (x ∷ y ∷ l)) e

last_append {ℓ} :
    {A : Type ℓ} (l m : List A)
    → 0 < length m
    → get_elem? (l ++ m) (length (l ++ m) - 1) ≡ get_elem? m (length m - 1)
last_append [] m h = refl
last_append (x ∷ l) m h =
    last_cons x (l ++ m) (omega (arith, h, length-append l m)) ∙ last_append l m h

module _ {P D L : Type 0} (b : Backend P D L)
    (whole : (xs ys : List ℕ)
      → ends_incomplete b (b.decode xs) ≡ false
      → b.decode (xs ++ ys) ≡ b.decode xs ++ b.decode ys) where
  ends_append : (s t : Text) → 0 < length t → ends_incomplete b (s ++ t) ≡ ends_incomplete b t
  unfolding ends_incomplete
  ends_append s t h =
      ap (λ o. elim o as (λ _. Bool) [ none ↦ false | some c ↦ c == 65533 ]) (last_append s t h)

  -- The text of the window, and the text of all tokens, are what was read before and the same more.
  split_window :
      (state : ServingState P D)
      → IsWindow b state
      → let window = drop state.detok_prefix_offset state.generated_token_ids in
        b.decode window
        ≡ b.decode (take (state.detok_read_offset - state.detok_prefix_offset) window)
          ++ b.decode (drop state.detok_read_offset state.generated_token_ids)
  unfolding IsWindow
  split_window state h =
      let tokens = state.generated_token_ids in
      let p = state.detok_prefix_offset in
      let r = state.detok_read_offset in
      ap b.decode (sym (slice_split p r tokens h.0))
      ∙ whole (take (r - p) (drop p tokens)) (drop r tokens) h.2

  split_all :
      (state : ServingState P D)
      → IsWindow b state
      → b.decode state.generated_token_ids
        ≡ shown_text b state ++ b.decode (drop state.detok_read_offset state.generated_token_ids)
  unfolding IsWindow shown_text
  split_all state h =
      let tokens = state.generated_token_ids in
      let r = state.detok_read_offset in
      ap b.decode (sym (take-append-drop r tokens)) ∙ whole (take r tokens) (drop r tokens) h.3

  -- What one call shows of this state.
  Reads : ServingState P D → Text × ServingState P D → Type 0
  Reads state (text, after) = (shown_text b state ++ text ≡ shown_text b after) × IsWindow b after

  moved :
      (state : ServingState P D)
      → IsWindow b state
      → let tokens = state.generated_token_ids in
        let window = drop state.detok_prefix_offset tokens in
        let before = b.decode (take (state.detok_read_offset - state.detok_prefix_offset) window) in
        leb (length (b.decode window)) (length before) ≡ false
        → ends_incomplete b (b.decode window) ≡ false
        → Reads state (
          drop (length before) (b.decode window),
          record state {
            detok_prefix_offset = state.detok_read_offset;
            detok_read_offset = length tokens;
          },
        )
  unfolding Reads IsWindow shown_text
  moved state h longer complete =
      let tokens = state.generated_token_ids in
      let r = state.detok_read_offset in
      let window = drop state.detok_prefix_offset tokens in
      let before = b.decode (take (r - state.detok_prefix_offset) window) in
      let more = b.decode (drop r tokens) in
      let new = split_window state h in
      let all = split_all state h in
      let some_more : 0 < length more =
        ground (arith, longer, ap length new, length-append before more) in
      let ends : ends_incomplete b more ≡ false =
        sym (ends_append before more some_more) ∙ ap (ends_incomplete b) (sym new) ∙ complete in
      let read : take (length tokens) tokens ≡ tokens = take_all (length tokens) tokens refl in
      let rest : take (length tokens - r) (drop r tokens) ≡ drop r tokens =
        take_all (length tokens - r) (drop r tokens) (length-drop r tokens) in
      (
        ap (λ t. b.decode (take r tokens) ++ drop (length before) t) new
            ∙ ap (λ t. b.decode (take r tokens) ++ t) (drop-length_append before more)
            ∙ sym all
            ∙ ap b.decode (sym read),
        (
          h.1,
          omega arith,
          ap (λ l. ends_incomplete b (b.decode l)) rest ∙ ends,
          ap (λ l. ends_incomplete b (b.decode l)) read
              ∙ ap (ends_incomplete b) all
              ∙ ends_append (b.decode (take r tokens)) more some_more
              ∙ ends,
        ),
      )

  moved-IsCaughtUp :
      (state : ServingState P D)
      → IsCaughtUp b (record state {
        detok_prefix_offset = state.detok_read_offset;
        detok_read_offset = length state.generated_token_ids;
      })
  unfolding IsCaughtUp shown_text
  moved-IsCaughtUp state =
      inl (ap b.decode (take_all (length state.generated_token_ids) state.generated_token_ids refl))

  waiting-IsCaughtUp :
      (state : ServingState P D)
      → IsWindow b state
      → let window = drop state.detok_prefix_offset state.generated_token_ids in
        let before = b.decode (take (state.detok_read_offset - state.detok_prefix_offset) window) in
        leb (length (b.decode window)) (length before) || ends_incomplete b (b.decode window) ≡ true
        → IsCaughtUp b state
  unfolding IsCaughtUp
  waiting-IsCaughtUp state h waits =
      let window = drop state.detok_prefix_offset state.generated_token_ids in
      let before = b.decode (take (state.detok_read_offset - state.detok_prefix_offset) window) in
      let more = b.decode (drop state.detok_read_offset state.generated_token_ids) in
      let new = split_window state h in
      let all = split_all state h in
      elim (List-cases more) [
        | inl none_more ↦ inl (
            sym (append-nil (shown_text b state))
            ∙ ap (λ t. shown_text b state ++ t) (sym none_more)
            ∙ sym all)
        | inr (c, cs, some_more) ↦
            let size : 0 < length more = rw some_more (omega arith) in
            let longer : leb (length (b.decode window)) (length before) ≡ false =
              ground (arith, ap length new, length-append before more, size) in
            let ends : ends_incomplete b more ≡ true =
              sym (ends_append before more size)
              ∙ ap (ends_incomplete b) (sym new)
              ∙ rw longer at waits in
            inr (ap (ends_incomplete b) all ∙ ends_append (shown_text b state) more size ∙ ends)
      ]

  decode_delta_lem :
      (state : ServingState P D) (token_id : ℕ)
      → IsWindow b state
      → Reads state (decode_delta b state token_id)
        × ((token_id == b.eos_token_id) ≡ false → IsCaughtUp b (decode_delta b state token_id).1)
  unfolding decode_delta Reads
  decode_delta_lem state token_id h =
      let tokens = state.generated_token_ids in
      let window = drop state.detok_prefix_offset tokens in
      let before = b.decode (take (state.detok_read_offset - state.detok_prefix_offset) window) in
      let short = leb (length (b.decode window)) (length before) in
      let still : Reads state ([], state) = (append-nil (shown_text b state), h) in
      elim (Bool-cases (token_id == b.eos_token_id)) [
        | inl e ↦ rw (decode_delta, e) (still, λ n. absurd (true≢false n))
        | inr e ↦ elim (Bool-cases (short || ends_incomplete b (b.decode window))) [
          | inl w ↦ rw (decode_delta, e, w) (still, λ _. waiting-IsCaughtUp state h w)
          | inr w ↦
              rw (decode_delta, e, w)
                (moved state h (ground (arith, w)) (ground (arith, w)), λ _. moved-IsCaughtUp state)
        ]
      ]

  longer-IsWindow :
      (state : ServingState P D) (token : ℕ)
      → IsWindow b state
      → let longer : ServingState P D = record state {
        generated_token_ids = state.generated_token_ids ++ token ∷ [];
      } in
        IsWindow b longer × (shown_text b longer ≡ shown_text b state)
  unfolding IsWindow shown_text
  longer-IsWindow state token h =
      let tokens = state.generated_token_ids in
      let p = state.detok_prefix_offset in
      let r = state.detok_read_offset in
      let read : take r (tokens ++ token ∷ []) ≡ take r tokens =
        take-append_le r tokens (token ∷ []) h.1 in
      let part : take (r - p) (drop p (tokens ++ token ∷ [])) ≡ take (r - p) (drop p tokens) =
        ap (take (r - p)) (drop-append_le p tokens (token ∷ []) (omega (arith, h.0, h.1)))
        ∙ take-append_le (r - p) (drop p tokens) (token ∷ [])
            (omega (arith, h.1, length-drop p tokens)) in
      (
        (
          h.0,
          omega (arith, h.1, length-append tokens (token ∷ [])),
          ap (λ l. ends_incomplete b (b.decode l)) part ∙ h.2,
          ap (λ l. ends_incomplete b (b.decode l)) read ∙ h.3,
        ),
        ap b.decode read,
      )

  append_token_result_lem :
      (q : Sequence) (state : ServingState P D) (token : ℕ)
      → IsWindow b state
      → let (result, after) = append_token_result b q state token in
        (shown_text b state ++ result.text ≡ shown_text b after)
        × IsWindow b after
        × ((token == b.eos_token_id) ≡ false → IsCaughtUp b after)
  unfolding append_token_result IsWindow shown_text Reads IsCaughtUp
  append_token_result_lem q state token h =
      let longer : ServingState P D = record state {
        generated_token_ids = state.generated_token_ids ++ token ∷ [];
      } in
      let (inside, same) = longer-IsWindow state token h in
      let (reads, caught) = decode_delta_lem longer token inside in
      (ap (λ t. t ++ (decode_delta b longer token).0) (sym same) ∙ reads.0, reads.1, caught)

  -- What is streamed from one state to another is what the text grows by.
  abbrev Shows : ServingState P D → List SampleResult × ServingState P D → Type 0
  Shows state (results, last) =
      (shown_text b state ++ streamed results ≡ shown_text b last)
      × IsWindow b last
      × IsCaughtUp b last

  stop_if-Shows :
      (state : ServingState P D) (result : SampleResult) (after : ServingState P D)
      (rest : List SampleResult × ServingState P D) (ended : Bool)
      → Shows state (result ∷ [], after)
      → Shows after rest
      → Shows state (stop_if b ended result after rest)
  unfolding stop_if
  stop_if-Shows state result after rest true one h = one
  stop_if-Shows state result after (results, last) false one (more, window, caught) = (
    sym (append_assoc (shown_text b state) result.text (streamed results))
        ∙ ap (λ t. (shown_text b state ++ t) ++ streamed results) (sym (append-nil result.text))
        ∙ ap (λ t. t ++ streamed results) one.0
        ∙ more,
    window,
    caught,
  )

  -- Where the tokenizer decodes what follows a text that ends with a whole character by itself, the
  -- window of the detokenizer lies inside the tokens and ends with whole characters, all of the
  -- text has been shown or it ends within a character, and none of the new tokens is the end of the
  -- text, the texts streamed while they are appended are together exactly what the text shown grows
  -- by, the window stays so, and again all of the text has been shown or it ends within a
  -- character.
  pub append_tokens-shown_text :
      (q : Sequence) (tokens : List ℕ) (state : ServingState P D)
      → IsWindow b state
      → IsCaughtUp b state
      → All (λ t. (t == b.eos_token_id) ≡ false) tokens
      → let (results, last) = append_tokens b q tokens state in
        (shown_text b state ++ streamed results ≡ shown_text b last)
        × IsWindow b last
        × IsCaughtUp b last
  unfolding append_tokens
  append_tokens-shown_text q [] state h caught live = (append-nil (shown_text b state), h, caught)
  append_tokens-shown_text q (token ∷ tokens) state h caught live =
      let (result, after) = append_token_result b q state token in
      let (one, inside, behind) = append_token_result_lem q state token h in
      let now = behind live.0 in
      stop_if-Shows state result after (append_tokens b q tokens after) after.finished
        (ap (λ t. shown_text b state ++ t) (append-nil result.text) ∙ one, inside, now)
        (append_tokens-shown_text q tokens after inside now live.1)
