-- ===== src/Client/ChatScript/Replies.antt =====
-- The script's client reads what the server writes.
use solo_rt.Prelude.{ℕ, ◌≡◌, refl, ap, ◌∙◌, none, some, List, [], ◌∷◌, ◌++◌, map, Result, ok, err}
use mathlib.Core.List.{flatten}
use solo_rt.Prelude.Sort.{All}
use solo_rt.Cache.BlockHash.{Text, codes}
use solo_rt.Cache.PrefixCache.{same_list}
use solo_rt.Core.Tokenizer.{is_space, lstrip, rstrip, strip}
use solo_rt.Api.Json.{Json, null, object, Fields, no_fields, str, get_field, dumps}
use solo_rt.Api.Json.Loads.{behind_literal}
use solo_rt.Api.Json.Loads.RoundTrip.{IsExact, loads-dumps}
use solo_rt.Api.Events.{sse_event, choice_of, chunk_value, content_delta, chat_completion_events}
use solo_rt.Client.Sse.{lines, data_of, get_of, truthy_str}
use solo_rt.Client.Sse.Lines.{IsPayload, data_line, lines-sse_event}
use solo_rt.Client.Sse.Answer.{
  non_empty, flatten-non_empty, not_done, payloads, payloads_lem, ArePayloads, IsExact-last,
  IsExact-chunk,
}
use solo_rt.Client.ChatScript.{
  first_of, delta_of, behind_delta, behind_payload, pieces_of, stream_reply,
}

rstrip-newline : (t : Text) → rstrip (t ++ 10 ∷ []) ≡ rstrip t
unfolding rstrip is_space
rstrip-newline [] = refl
rstrip-newline (c ∷ cs) = rw (rstrip, rstrip-newline cs) refl

data_of-line : (p : Text) → IsPayload p → data_of (strip (data_line p ++ 10 ∷ [])) ≡ some p
unfolding data_of strip lstrip rstrip is_space behind_literal
data_of-line [] h = refl
data_of-line (c ∷ cs) h =
    let line : rstrip (data_line (c ∷ cs) ++ 10 ∷ []) ≡ data_line (c ∷ cs) =
      rstrip-newline (data_line (c ∷ cs)) ∙ rw h.right refl in
    rw line (rw (h.left, h.right) refl)

blank_line : data_of (strip (10 ∷ [])) ≡ none
unfolding data_of strip lstrip rstrip is_space behind_literal
blank_line = refl

step_none :
    (raw : Text) (raws : List Text)
    → data_of (strip raw) ≡ none
    → pieces_of (raw ∷ raws) ≡ pieces_of raws
unfolding pieces_of
step_none raw raws h = rw (pieces_of, h) refl

step_some :
    (raw : Text) (raws : List Text) (p : Text)
    → data_of (strip raw) ≡ some p
    → pieces_of (raw ∷ raws) ≡ behind_payload p (pieces_of raws)
unfolding pieces_of
step_some raw raws p h = rw (pieces_of, h) refl

-- One event, of which the blank line is skipped.
pieces-event :
    (p : Text) (raws : List Text)
    → IsPayload p
    → pieces_of ((data_line p ++ 10 ∷ []) ∷ (10 ∷ []) ∷ raws) ≡ behind_payload p (pieces_of raws)
pieces-event p raws h =
    step_some (data_line p ++ 10 ∷ []) ((10 ∷ []) ∷ raws) p (data_of-line p h)
    ∙ ap (behind_payload p) (step_none (10 ∷ []) raws blank_line)

-- What the loop makes of the payloads.
fold_payloads : List Text → List Text × Result (Unit {0})
fold_payloads [] = ([], ok tt)
fold_payloads (p ∷ ps) = behind_payload p (fold_payloads ps)

pieces-events :
    (ps : List Text)
    → All IsPayload ps
    → pieces_of (lines (flatten (map sse_event ps))) ≡ fold_payloads ps
unfolding flatten fold_payloads
pieces-events [] h = unfold pieces_of lines in refl
pieces-events (p ∷ ps) h =
    ap pieces_of (lines-sse_event p (flatten (map sse_event ps)) h.0.line)
    ∙ pieces-event p (lines (flatten (map sse_event ps))) h.0
    ∙ ap (behind_payload p) (pieces-events ps h.1)

module _ (seq_id : Text) (created : ℕ) (model : Text) where
  payload_lem :
      (pairs : Fields) (delta : Json) (rest : List Text × Result (Unit {0}))
      → IsExact (object pairs)
      → delta_of (object pairs) ≡ ok delta
      → behind_payload (dumps (object pairs)) rest ≡ behind_delta delta rest
  unfolding behind_payload
  payload_lem pairs delta rest exact d =
      rw
        (
          behind_payload,
          not_done seq_id created model (λ json. []) pairs,
          loads-dumps (object pairs) exact,
          d,
        )
        refl

  delta_chunk :
      (text : Text)
      → delta_of (chunk_value seq_id created model (content_delta text) none) ≡ ok (str text)
  unfolding delta_of first_of get_of chunk_value choice_of get_field same_list
  delta_chunk text = refl

  delta_last : delta_of (chunk_value seq_id created model no_fields (some (codes "stop"))) ≡ ok null
  unfolding delta_of first_of get_of chunk_value choice_of get_field same_list
  delta_last = refl

  fold_lem :
      (texts : List Text)
      → fold_payloads (payloads seq_id created model texts) ≡ (non_empty texts, ok tt)
  unfolding payloads chunk_value fold_payloads behind_payload truthy_str
  fold_lem [] =
      payload_lem _ null _ (IsExact-last seq_id created model) delta_last
      ∙ unfold behind_delta behind_payload same_list in refl
  fold_lem ([] ∷ texts) =
      payload_lem _ (str []) (fold_payloads (payloads seq_id created model texts))
        (IsExact-chunk seq_id created model []) (delta_chunk [])
      ∙ unfold behind_delta in fold_lem texts
  fold_lem ((c ∷ cs) ∷ texts) =
      payload_lem _ (str (c ∷ cs)) (fold_payloads (payloads seq_id created model texts))
        (IsExact-chunk seq_id created model (c ∷ cs)) (delta_chunk (c ∷ cs))
      ∙ unfold behind_delta in
        ap (λ (out : List Text × Result (Unit {0})). ((c ∷ cs) ∷ out.0, out.1)) (fold_lem texts)

  -- For any texts, stream_reply of the chat script, reading the lines of the events that the server
  -- sends for them, does not raise: it returns the texts one after the other, and writes them and a
  -- line end.
  pub stream_reply-chat_completion_events :
      (texts : List Text)
      → stream_reply (lines (flatten (chat_completion_events seq_id created model texts)))
        ≡ (flatten texts ++ codes "\n", ok (flatten texts))
  unfolding stream_reply
  stream_reply-chat_completion_events texts =
      let read : pieces_of (lines (flatten (chat_completion_events seq_id created model texts)))
          ≡ (non_empty texts, ok tt) =
        ap (λ l. pieces_of (lines (flatten l))) (payloads_lem seq_id created model texts)
        ∙ pieces-events (payloads seq_id created model texts)
            (ArePayloads seq_id created model texts)
        ∙ fold_lem texts in
      ap
        (λ (out : List Text × Result (Unit {0})). elim out.1 as (λ _. Text × Result Text) [
          | err e ↦ (flatten out.0, err e)
          | ok _ ↦ (flatten out.0 ++ codes "\n", ok (flatten out.0))
        ])
        read
      ∙ ap (λ t. (t ++ codes "\n", ok t)) (flatten-non_empty texts)
