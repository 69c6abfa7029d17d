-- ===== src/Model/Serving.antt =====
-- src/solort/model/executor.py: what `TransformersTextExecutor` keeps for a sequence, how it samples
-- a token, turns it into text and appends it. The model, the tokenizer and torch's sampling are
-- fields of `Backend`.
pub mod Laws
pub mod Detokenizer
use solo_rt.Prelude.{
  ℕ, zero, suc, ◌+◌, ◌-◌, ◌^◌, Bool, true, false, ◌&&◌, ◌||◌, not, Option, none, some, List, [],
  ◌∷◌, ◌++◌, String, if◌then◌else◌, ltb, leb, ◌==◌, length, take, drop, contains, get_elem?, ℤ, pos,
  negsuc,
}
use solo_rt.Prelude.Dict
use solo_rt.Prelude.Dict.{Dict}
use solo_rt.Cache.BlockHash.{Text}
use solo_rt.Core.Sequence.{Sequence, Decimal}
use solo_rt.Core.Runtime.{SampleResult}

-- A call of the target or the draft model feeds tokens after what a past covers, and returns the
-- new past and the logits of each fed position. `crop` is there if the draft's past can be cut.
pub record Backend (P D L : Type 0) : Type 0 where
  pub forward : Option P → List ℕ → P × List L
  pub draft : Option D → List ℕ → D × List L
  pub crop : Option (D → ℕ → D)
  pub argmax : L → ℕ
  pub penalize : L → Sequence → L
  pub draw : L → Sequence → ℕ
  pub decode : List ℕ → Text
  pub eos_token_id : ℕ
  pub has_draft : Bool
  pub speculative_tokens : ℕ
  pub kv_attached : Bool

-- `_ServingState`; nothing reads its `decoded_text`.
pub record ServingState (P D : Type 0) : Type 0 where
  pub past_key_values : Option P
  pub prompt_token_count : ℕ
  pub prefilled_token_count : ℕ
  pub pending_token_id : Option ℕ
  pub generated_token_ids : List ℕ
  pub finished : Bool
  pub detok_prefix_offset : ℕ
  pub detok_read_offset : ℕ
  pub draft_past_key_values : Option D
  pub draft_cached_len : ℕ

abbrev pub new_state : {P D : Type 0} → Sequence → ServingState P D
new_state q = record {
  past_key_values = none;
  prompt_token_count = q.num_prompt_tokens;
  prefilled_token_count = 0;
  pending_token_id = none;
  generated_token_ids = [];
  finished = false;
  detok_prefix_offset = 0;
  detok_read_offset = 0;
  draft_past_key_values = none;
  draft_cached_len = 0;
}

-- `_ensure_state`
unfoldable pub ensure_state :
    {P D : Type 0} → Sequence → Dict (ServingState P D) → ServingState P D × Dict (ServingState P D)
ensure_state q states = elim (Dict.lookup q.seq_id states) [
  | some state ↦ (state, states)
  | none ↦ (new_state q, Dict.insert q.seq_id (new_state q) states)
]

-- `x <= 0` and `x == 1` of a decimal.
unfoldable pub is_nonpositive : Decimal → Bool
is_nonpositive x = elim x.digits [ negsuc n ↦ true | pos n ↦ n == 0 ]

unfoldable pub is_one : Decimal → Bool
is_one x = elim x.digits [ negsuc n ↦ false | pos n ↦ n == 10 ^ x.places ]

unfoldable pub at_most_one : Decimal → Bool
at_most_one x = elim x.digits [ negsuc n ↦ true | pos n ↦ leb n (10 ^ x.places) ]

module _ {P D L : Type 0} (b : Backend P D L) where
  -- `_apply_repetition_penalty`
  unfoldable pub apply_repetition_penalty : L → Sequence → L
  unfolding at_most_one
  apply_repetition_penalty scores q =
      if at_most_one q.metadata.repetition_penalty || (length q.output_ids == 0)
      then scores
      else b.penalize scores q

  -- `_sample_token`
  unfoldable pub sample_token : L → Sequence → ℕ
  unfolding apply_repetition_penalty is_nonpositive
  sample_token logits q =
      let scores = apply_repetition_penalty logits q in
      if is_nonpositive q.metadata.temperature then b.argmax scores else b.draw scores q

  -- `new_text.endswith("\ufffd")`
  unfoldable pub ends_incomplete : Text → Bool
  ends_incomplete text = elim (get_elem? text (length text - 1)) [
    | none ↦ false
    | some c ↦ c == 65533
  ]

  -- `_decode_delta`: the text that a token adds, and the state with its window moved.
  unfoldable pub decode_delta : ServingState P D → ℕ → Text × ServingState P D
  unfolding ends_incomplete
  decode_delta state token_id =
      let tokens = state.generated_token_ids in
      let window = drop state.detok_prefix_offset tokens in
      let prefix_text =
        b.decode (take (state.detok_read_offset - state.detok_prefix_offset) window) in
      let new_text = b.decode window in
      if token_id == b.eos_token_id
      then ([], state)
      else if leb (length new_text) (length prefix_text) || ends_incomplete new_text
      then ([], state)
      else (
        drop (length prefix_text) new_text,
        record state {
          detok_prefix_offset = state.detok_read_offset;
          detok_read_offset = length tokens;
        },
      )

  all_equal : ℕ → List ℕ → Bool
  all_equal token [] = true
  all_equal token (t ∷ ts) = (t == token) && all_equal token ts

  -- `token_ids[-1]` against `token_ids[-max_run:]`.
  unfoldable pub ends_in_run : ℕ → List ℕ → Bool
  unfolding all_equal
  ends_in_run max_run token_ids = elim (get_elem? token_ids (length token_ids - 1)) [
    | none ↦ true
    | some last ↦ all_equal last (drop (length token_ids - max_run) token_ids)
  ]

  -- `_hit_repeated_token_run`
  unfoldable pub hit_repeated_token_run : Sequence → List ℕ → Bool
  unfolding ends_in_run
  hit_repeated_token_run q token_ids = elim q.metadata.max_repeated_token_run [
    | negsuc n ↦ false
    | pos n ↦ if (n == 0) || ltb (length token_ids) n then false else ends_in_run n token_ids
  ]

  unfoldable pub must_finish : Sequence → ServingState P D → ℕ → Bool
  unfolding hit_repeated_token_run
  must_finish q state token_id =
      leb q.max_new_tokens (length state.generated_token_ids)
      || (token_id == b.eos_token_id)
      || contains q.stop_token_ids token_id
      || hit_repeated_token_run q state.generated_token_ids

  -- `_append_token_result`. A finished state leaves the executor's dict; a reference to it stays.
  unfoldable pub append_token_result :
      Sequence → ServingState P D → ℕ → SampleResult × ServingState P D
  unfolding decode_delta must_finish
  append_token_result q state token_id =
      let longer : ServingState P D = record state {
        generated_token_ids = state.generated_token_ids ++ token_id ∷ [];
      } in
      let (text, shown) = decode_delta longer token_id in
      let ended = state.finished || must_finish q longer token_id in
      (
        record { token_id = token_id; text = text; is_last = ended },
        record shown { finished = ended },
      )

  -- `if state.finished: return results`
  unfoldable pub stop_if :
      Bool
      → SampleResult
      → ServingState P D
      → List SampleResult × ServingState P D
      → List SampleResult × ServingState P D
  stop_if true result after rest = (result ∷ [], after)
  stop_if false result after (results, last) = (result ∷ results, last)

  -- The loop that appends tokens until the state is finished.
  unfoldable pub append_tokens :
      Sequence → List ℕ → ServingState P D → List SampleResult × ServingState P D
  unfolding append_token_result stop_if
  append_tokens q [] state = ([], state)
  append_tokens q (token ∷ tokens) state =
      let (result, after) = append_token_result q state token in
      stop_if after.finished result after (append_tokens q tokens after)
