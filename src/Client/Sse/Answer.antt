-- ===== src/Client/Sse/Answer.antt =====
-- What the client prints of a streamed answer is what the runtime yielded.
use solo_rt.Prelude.{ℕ, ◌≡◌, refl, ap, ◌∙◌, false, none, some, List, [], ◌∷◌, ◌++◌, map, Result, ok}
use mathlib.Core.List.{flatten}
use solo_rt.Prelude.Sort.{All}
use solo_rt.Cache.BlockHash.{Text}
use solo_rt.Cache.PrefixCache.{same_list}
use solo_rt.Core.Tokenizer.{is_space, lstrip, rstrip}
use solo_rt.Api.Json.{Json, str, object, Fields, no_fields, codes, get_field, dumps}
use solo_rt.Api.Json.Loads.RoundTrip.{IsExact, loads-dumps}
use solo_rt.Api.Events.{
  sse_event, choice_of, chunk_value, chunk, content_delta, chat_completion_events,
}
use solo_rt.Client.Sse.{
  lines, iter_sse_payloads, truthy_str, content_of, content_from_sse_payload, stream_contents,
}
use solo_rt.Client.Sse.Lines.{IsPayload, iter_sse_payloads-sse_event}
use solo_rt.Client.Sse.Payload.{dumps-IsPayload}

-- The texts that are not empty.
abbrev pub non_empty : List Text → List Text
non_empty [] = []
non_empty ([] ∷ texts) = non_empty texts
non_empty ((c ∷ cs) ∷ texts) = (c ∷ cs) ∷ non_empty texts

pub flatten-non_empty : (texts : List Text) → flatten (non_empty texts) ≡ flatten texts
unfolding flatten
flatten-non_empty [] = refl
flatten-non_empty ([] ∷ texts) = flatten-non_empty texts
flatten-non_empty ((c ∷ cs) ∷ texts) = ap (λ l. (c ∷ cs) ++ l) (flatten-non_empty texts)

module _ (seq_id : Text) (created : ℕ) (model : Text) where
  -- The payloads of the events.
  unfoldable pub payloads : List Text → List Text
  payloads [] =
      dumps (chunk_value seq_id created model no_fields (some (codes "stop"))) ∷ codes "[DONE]" ∷ []
  payloads (text ∷ texts) =
      dumps (chunk_value seq_id created model (content_delta text) none) ∷ payloads texts

  pub payloads_lem :
      (texts : List Text)
      → chat_completion_events seq_id created model texts ≡ map sse_event (payloads texts)
  unfolding chat_completion_events chunk payloads
  payloads_lem [] = refl
  payloads_lem (text ∷ texts) =
      ap (λ l. sse_event (dumps (chunk_value seq_id created model (content_delta text) none)) ∷ l)
        (payloads_lem texts)

  pub IsExact-last : IsExact (chunk_value seq_id created model no_fields (some (codes "stop")))
  unfolding IsExact chunk_value choice_of
  IsExact-last = (tt, (tt, (tt, (tt, (((tt, (tt, (tt, tt))), tt), tt)))))

  pub IsExact-chunk :
      (text : Text) → IsExact (chunk_value seq_id created model (content_delta text) none)
  unfolding IsExact chunk_value choice_of
  IsExact-chunk text = (tt, (tt, (tt, (tt, (((tt, ((tt, tt), (tt, tt))), tt), tt)))))

  done-IsPayload : IsPayload (codes "[DONE]")
  unfolding lstrip rstrip is_space
  done-IsPayload = record {
    line = (refl, (refl, (refl, (refl, (refl, (refl, tt))))));
    left = refl;
    right = refl;
  }

  pub ArePayloads : (texts : List Text) → All IsPayload (payloads texts)
  unfolding payloads chunk_value IsExact
  ArePayloads [] = (dumps-IsPayload _ IsExact-last, (done-IsPayload, tt))
  ArePayloads (text ∷ texts) = (dumps-IsPayload _ (IsExact-chunk text), ArePayloads texts)

  module _ (repr : Json → Text) where
    pub not_done : (pairs : Fields) → same_list (dumps (object pairs)) (codes "[DONE]") ≡ false
    unfolding same_list dumps
    not_done pairs = refl

    content-dumps :
        (pairs : Fields)
        → IsExact (object pairs)
        → content_from_sse_payload repr (dumps (object pairs)) ≡ content_of repr (object pairs)
    unfolding content_from_sse_payload
    content-dumps pairs h = rw (not_done pairs, loads-dumps (object pairs) h) refl

    content_chunk :
        (text : Text)
        → content_from_sse_payload repr
            (dumps (chunk_value seq_id created model (content_delta text) none))
          ≡ ok (truthy_str repr (str text))
    unfolding content_of chunk_value choice_of get_field same_list
    content_chunk text = content-dumps _ (IsExact-chunk text)

    content_last :
        content_from_sse_payload repr
          (dumps (chunk_value seq_id created model no_fields (some (codes "stop"))))
        ≡ ok none
    unfolding content_of chunk_value choice_of get_field same_list
    content_last = content-dumps _ IsExact-last

    content_done : content_from_sse_payload repr (codes "[DONE]") ≡ ok none
    unfolding content_from_sse_payload same_list
    content_done = refl

    step_none :
        (p : Text) (ps : List Text)
        → content_from_sse_payload repr p ≡ ok none
        → stream_contents repr (p ∷ ps) ≡ stream_contents repr ps
    unfolding stream_contents
    step_none p ps h = rw (stream_contents, h) refl

    step_some :
        (p : Text) (ps : List Text) (c : ℕ) (cs : Text)
        → content_from_sse_payload repr p ≡ ok (some (c ∷ cs))
        → stream_contents repr (p ∷ ps)
          ≡ ((c ∷ cs) ∷ (stream_contents repr ps).0, (stream_contents repr ps).1)
    unfolding stream_contents
    step_some p ps c cs h = rw (stream_contents, h) refl

    contents_lem :
        (texts : List Text) → stream_contents repr (payloads texts) ≡ (non_empty texts, ok tt)
    unfolding payloads truthy_str
    contents_lem [] =
        step_none _ (codes "[DONE]" ∷ []) content_last
        ∙ step_none (codes "[DONE]") [] content_done
        ∙ unfold stream_contents in refl
    contents_lem ([] ∷ texts) = step_none _ (payloads texts) (content_chunk []) ∙ contents_lem texts
    contents_lem ((c ∷ cs) ∷ texts) =
        step_some _ (payloads texts) c cs (content_chunk (c ∷ cs))
        ∙ ap (λ (out : List Text × Result (Unit {0})). ((c ∷ cs) ∷ out.0, out.1))
            (contents_lem texts)

    -- For any texts, the client, reading the lines of the events that the server sends for them,
    -- yields exactly those that are not empty, in order, and does not raise.
    pub stream_contents-chat_completion_events :
        (texts : List Text)
        → stream_contents repr (
            iter_sse_payloads (lines (flatten (chat_completion_events seq_id created model texts))))
          ≡ (non_empty texts, ok tt)
    stream_contents-chat_completion_events texts =
        ap (λ l. stream_contents repr (iter_sse_payloads (lines (flatten l)))) (payloads_lem texts)
        ∙ ap (stream_contents repr)
            (iter_sse_payloads-sse_event (payloads texts) (ArePayloads texts))
        ∙ contents_lem texts
