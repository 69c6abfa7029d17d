-- ===== src/Model/Examples.antt =====
-- Tests with a model whose next token is the number of tokens before it.
use solo_rt.Prelude.{
  ℕ, max, ◌+◌, ◌≤◌, ◌<◌, ◌≡◌, refl, sym, ap, ◌∙◌, append-nil, append_assoc, map, true, false,
  Option, none, some, err, stop_iteration, List, [], ◌∷◌, ◌++◌, length, pos, ok, arith, zero, suc,
  ◌-◌, inl,
}
use mathlib.Core.Bool.{true≢false}
use solo_rt.Cache.BlockHash.{Text}
use solo_rt.Cache.KvCache.{PagedKvCache, default_config}
use solo_rt.Core.Sequence.{Sequence, Metadata, running, foreground, foreground_decode}
use solo_rt.Core.Runtime.{SampleResult}
use solo_rt.Model.Serving.{
  Backend, ServingState, append_tokens, is_one, is_nonpositive, ends_incomplete,
}
use solo_rt.Model.Serving.Detokenizer.{
  IsWindow, IsCaughtUp, shown_text, streamed, append_tokens-shown_text,
}
use solo_rt.Model.Serving.Laws.{HasRoom, append_tokens-HasRoom}
use solo_rt.Model.Speculation
use solo_rt.Model.Speculation.{spec_k}
use solo_rt.Model.Speculation.Exact.{Answers, forward_decode-IsGreedy}
use solo_rt.Model.Round.{emit_round}
use solo_rt.Model.Round.Verified.{verified, EmitsUpTo, emit_round-EmitsUpTo}
use solo_rt.Model.Round.Emitted.{Extends, ids}
use solo_rt.Model.Round.Greedy.{IsGreedy, scores}
use solo_rt.Model.CudaGraph
use solo_rt.Model.CudaGraph.{Runner, forward_decode, decode_position, is_greedy, prefill_bound}
use solo_rt.Model.CudaGraph.Buckets.{prefill_bound_lem}
use solo_rt.Model.CudaGraph.Steps.{forward_decode-decode_position}
use solo_rt.Model.Executor.{Work}

abbrev next : List ℕ → ℕ
next context = length context

-- The logits of each fed token, which are just their argmax.
abbrev answers : List ℕ → List ℕ → List ℕ
answers context [] = []
answers context (t ∷ ts) = next (context ++ t ∷ []) ∷ answers (context ++ t ∷ []) ts

abbrev covered : Option (List ℕ) → List ℕ
covered none = []
covered (some tokens) = tokens

abbrev counting : Backend (List ℕ) (List ℕ) ℕ
counting = record {
  forward = λ past tokens. (covered past ++ tokens, answers (covered past) tokens);
  draft = λ past tokens. (covered past ++ tokens, answers (covered past) tokens);
  crop = none;
  argmax = λ l. l;
  penalize = λ l q. l;
  draw = λ l q. l;
  decode = λ tokens. tokens;
  eos_token_id = 99;
  has_draft = true;
  speculative_tokens = 2;
  kv_attached = false;
}

abbrev greedy : Metadata
greedy = record {
  model_id = "m";
  messages = [];
  request_messages = [];
  response_text = [];
  response_appended = false;
  temperature = record { digits = pos 0; places = 0 };
  top_p = record { digits = pos 8; places = 1 };
  top_k = pos 20;
  repetition_penalty = record { digits = pos 1; places = 0 };
  max_repeated_token_run = pos 16;
  enable_thinking = false;
}

abbrev request : Sequence
request = record {
  seq_id = "req_1";
  session_id = "sess_1";
  input_ids = 7 ∷ [];
  max_new_tokens = 5;
  output_ids = 1 ∷ [];
  status = running;
  priority = foreground_decode;
  task_kind = foreground;
  num_prompt_tokens = 1;
  num_cached_tokens = 0;
  num_scheduled_tokens = 1;
  stop_token_ids = [];
  block_table = [];
  kv_precision = "fp16";
  cache_handle = none;
  metadata = greedy;
  created_ts = 1;
  last_active_ts = 1;
}

-- The prompt is 7, and 1 has been generated.
abbrev begun : ServingState (List ℕ) (List ℕ)
begun = record {
  past_key_values = some (7 ∷ []);
  prompt_token_count = 1;
  prefilled_token_count = 1;
  pending_token_id = none;
  generated_token_ids = 1 ∷ [];
  finished = false;
  detok_prefix_offset = 0;
  detok_read_offset = 1;
  draft_past_key_values = none;
  draft_cached_len = 0;
}

abbrev no_pages : PagedKvCache
no_pages = record {
  config = default_config;
  allocator = record {
    num_pages = 1;
    page_size = 16;
    free_pages = 0 ∷ [];
    used_pages = [];
    ref_count = 0 ∷ [];
  };
  tensors = none;
  mirrored_tokens = 0;
  mirror_skipped = 0;
}

abbrev work : Work (List ℕ) (List ℕ)
work = record {
  state = begun;
  held = ([], no_pages);
  proposed_tokens = 0;
  accepted_tokens = 0;
  rejected_tokens = 0;
  draft_forward_tokens = 0;
}

emit_round-EmitsUpTo_example :
    let out = emit_round counting request (2 ∷ 8 ∷ []) (2 ∷ 3 ∷ []) 4 begun in
    Extends begun out
    × (0 < length out.0)
    × EmitsUpTo counting request (verified (2 ∷ 8 ∷ []) (2 ∷ 3 ∷ []) 4) out
emit_round-EmitsUpTo_example =
    emit_round-EmitsUpTo counting request (2 ∷ 8 ∷ []) (2 ∷ 3 ∷ []) 4 begun (omega arith) refl

begun-HasRoom : HasRoom request begun
unfolding HasRoom
begun-HasRoom = (omega arith, λ e. omega arith)

append_tokens-HasRoom_example :
    HasRoom request (append_tokens counting request (2 ∷ 3 ∷ 4 ∷ 5 ∷ 6 ∷ 7 ∷ []) begun).1
append_tokens-HasRoom_example =
    append_tokens-HasRoom counting request (2 ∷ 3 ∷ 4 ∷ 5 ∷ 6 ∷ 7 ∷ []) begun begun-HasRoom refl

-- A tokenizer in which the token 0 is the first byte of a character and the next one the second.
paired : List ℕ → Text
paired [] = []
paired (zero ∷ []) = 65533 ∷ []
paired (zero ∷ x ∷ xs) = (x + 256) ∷ paired xs
paired (suc n ∷ xs) = n ∷ paired xs

abbrev pairing : Backend (List ℕ) (List ℕ) ℕ
pairing = record counting { decode = paired }

ends_behind :
    (c : ℕ) (t : Text) → ends_incomplete pairing (c ∷ t) ≡ false → ends_incomplete pairing t ≡ false
unfolding ends_incomplete
ends_behind c [] h = refl
ends_behind c (d ∷ t) h =
    let e : length (c ∷ d ∷ t) - 1 ≡ suc (length (d ∷ t) - 1) = omega arith in
    rw (ends_incomplete, e) at h

paired_whole :
    (xs ys : List ℕ)
    → ends_incomplete pairing (paired xs) ≡ false
    → paired (xs ++ ys) ≡ paired xs ++ paired ys
unfolding paired ends_incomplete
paired_whole [] ys h = refl
paired_whole (zero ∷ []) ys h = absurd (true≢false h)
paired_whole (zero ∷ x ∷ xs) ys h =
    ap (λ t. (x + 256) ∷ t) (paired_whole xs ys (ends_behind (x + 256) (paired xs) h))
paired_whole (suc n ∷ xs) ys h = ap (λ t. n ∷ t) (paired_whole xs ys (ends_behind n (paired xs) h))

begun-IsWindow : IsWindow pairing begun
unfolding IsWindow paired ends_incomplete
begun-IsWindow = (omega arith, omega arith, refl, refl)

begun-IsCaughtUp : IsCaughtUp pairing begun
unfolding IsCaughtUp shown_text paired
begun-IsCaughtUp = inl refl

append_tokens-shown_text_example :
    let (results, last) = append_tokens pairing request (2 ∷ 0 ∷ 3 ∷ 0 ∷ []) begun in
    (shown_text pairing begun ++ streamed results ≡ shown_text pairing last)
    × IsWindow pairing last
    × IsCaughtUp pairing last
append_tokens-shown_text_example =
    append_tokens-shown_text pairing paired_whole request (2 ∷ 0 ∷ 3 ∷ 0 ∷ []) begun begun-IsWindow
      begun-IsCaughtUp (refl, (refl, (refl, (refl, tt))))

-- The buffers are the slots that were written.
abbrev replaying : Runner (List ℕ) ℕ
replaying = record {
  prefill = λ bound ids slots. (length ids, slots);
  step = λ bound token pos slots. (token + 1, slots ++ pos ∷ []);
}

forward_decode-decode_position_example :
    (results : List SampleResult) × (last : ServingState (List ℕ) (List ℕ)) × (after : List ℕ)
    × (forward_decode counting replaying 16 3 request begun [] ≡ ok (results, last, after))
    × (1 ≤ length results)
    × (length results ≤ max 1 3)
    × (decode_position last ≡ decode_position begun + length results)
    × (decode_position last ≤ 16)
unfolding decode_position is_greedy is_nonpositive is_one
forward_decode-decode_position_example =
    forward_decode-decode_position counting replaying 16 3 request begun [] refl refl refl
      (omega arith) (omega arith)

prefill_bound_lem_example :
    ((bound : ℕ) → prefill_bound 8192 1500 ≡ ok bound → (1500 ≤ bound) × (bound ≤ 8192))
    × (1024 < 1500 → prefill_bound 8192 1500 ≡ err stop_iteration)
prefill_bound_lem_example = prefill_bound_lem 8192 1500

answers_lem :
    (context : List ℕ) (t : ℕ) (drafts : List ℕ)
    → map counting.argmax (answers context (t ∷ drafts))
      ≡ scores next (context ++ t ∷ []) drafts ++ next ((context ++ t ∷ []) ++ drafts) ∷ []
answers_lem context t [] = ap (λ c. next c ∷ []) (sym (append-nil (context ++ t ∷ [])))
answers_lem context t (d ∷ drafts) =
    let c = context ++ t ∷ [] in
    ap (λ l. next c ∷ l)
      (answers_lem c d drafts
        ∙ ap (λ l. scores next (c ++ d ∷ []) drafts ++ next l ∷ [])
            (append_assoc c (d ∷ []) drafts))

abbrev scoring : List ℕ → ℕ → List ℕ → List ℕ × List ℕ
scoring fed position slots = (answers (7 ∷ []) fed, slots)

scoring-Answers : Answers counting replaying replaying scoring 16 1 next (7 ∷ 1 ∷ []) 1 2 []
unfolding Answers
scoring-Answers drafts = answers_lem (7 ∷ []) 1 drafts

forward_decode-IsGreedy_example :
    (results : List SampleResult) × (last : ServingState (List ℕ) (List ℕ)) × (r : List ℕ)
    × (q : List ℕ) × (Speculation.forward_decode counting replaying replaying scoring 16 1 request
          begun [] []
        ≡ ok (results, last, r, q))
    × IsGreedy next (7 ∷ 1 ∷ []) (ids results)
    × (0 < length results)
    × (last.generated_token_ids ≡ begun.generated_token_ids ++ ids results)
unfolding decode_position is_greedy is_nonpositive is_one spec_k CudaGraph.last_generated
forward_decode-IsGreedy_example =
    forward_decode-IsGreedy counting replaying replaying scoring 16 1 request begun next
      (7 ∷ 1 ∷ []) [] [] refl refl refl (omega arith) (omega arith) scoring-Answers
