-- ===== src/Client/Bench/Answers.antt =====
-- What the benchmark measures of an answer of the server.
use solo_rt.Prelude.{
  ℕ, ◌+◌, ◌-◌, ◌≡◌, refl, sym, ap, ◌∙◌, none, some, List, [], ◌∷◌, ◌++◌, map, append-nil,
  append_assoc, length, length-append, Result, ok, arith,
}
use mathlib.Core.List.{flatten}
use solo_rt.Cache.BlockHash.{Text, codes}
use solo_rt.Cache.PrefixCache.{same_list}
use solo_rt.Api.Json.{Json, null, str, object, Fields, no_fields, get_field, dumps}
use solo_rt.Api.Json.Loads.RoundTrip.{IsExact, loads-dumps}
use solo_rt.Api.Events.{choice_of, chunk_value, content_delta, chat_completion_events}
use solo_rt.Client.Sse.{lines, iter_sse_payloads, get_of, first_choice, truthy_str}
use solo_rt.Client.Sse.Lines.{iter_sse_payloads-sse_event}
use solo_rt.Client.Sse.Answer.{
  non_empty, not_done, payloads, payloads_lem, ArePayloads, IsExact-last, IsExact-chunk,
}
use solo_rt.Client.Bench.{
  ServingRun, Measured, nothing_yet, texts_of, run_of, serving_run, content_value, measure,
  run_from,
}

texts_of-str : (said : List Text) → texts_of (map str said) ≡ ok said
unfolding texts_of
texts_of-str [] = refl
texts_of-str (t ∷ said) = rw (texts_of-str said) refl

map-snoc : (said : List Text) (t : Text) → map str said ++ str t ∷ [] ≡ map str (said ++ t ∷ [])
map-snoc [] t = refl
map-snoc (s ∷ said) t = ap (λ l. str s ∷ l) (map-snoc said t)

flatten-snoc : (said : List Text) (t : Text) → flatten (said ++ t ∷ []) ≡ flatten said ++ t
unfolding flatten
flatten-snoc [] t = append-nil t
flatten-snoc (s ∷ said) t =
    ap (λ l. s ++ l) (flatten-snoc said t) ∙ sym (append_assoc s (flatten said) t)

-- A run that counts these events and these chunks of this text, and took so long.
pub record Measures (events chunks : ℕ) (text : Text) (ttot : ℕ) (out : Result ServingRun)
    : Type 0 where
  pub run : ServingRun
  pub returns : out ≡ ok run
  pub events_lem : run.events ≡ events
  pub chunks_lem : run.token_chunks ≡ chunks
  pub text_lem : run.text ≡ text
  pub chars_lem : run.chars ≡ length text
  pub ttot_lem : run.ttot_seconds ≡ ttot

serving_run_lem :
    (start now : ℕ) (m : Measured) (said : List Text)
    → m.chunks ≡ map str said
    → Measures m.events
        (length m.token_arrivals)
        (flatten said)
        (now - start)
        (serving_run start now m)
unfolding serving_run run_of
serving_run_lem start now m said h =
    let read : texts_of m.chunks ≡ ok said = ap texts_of h ∙ texts_of-str said in
    record {
      run = run_of start now m said;
      returns = rw (serving_run, read) refl;
      events_lem = refl;
      chunks_lem = refl;
      text_lem = refl;
      chars_lem = refl;
      ttot_lem = refl;
    }

Measures-adapt :
    {events chunks : ℕ} {text : Text} {ttot : ℕ} {out : Result ServingRun} (events' chunks' : ℕ)
    (text' : Text) (ttot' : ℕ) (out' : Result ServingRun)
    → Measures events chunks text ttot out
    → events ≡ events'
    → chunks ≡ chunks'
    → text ≡ text'
    → ttot ≡ ttot'
    → out' ≡ out
    → Measures events' chunks' text' ttot' out'
Measures-adapt events' chunks' text' ttot' out' h e k t d o = record {
  run = h.run;
  returns = o ∙ h.returns;
  events_lem = h.events_lem ∙ e;
  chunks_lem = h.chunks_lem ∙ k;
  text_lem = h.text_lem ∙ t;
  chars_lem = h.chars_lem ∙ ap length t;
  ttot_lem = h.ttot_lem ∙ d;
}

module _ (seq_id : Text) (created : ℕ) (model : Text) (clock : ℕ → ℕ) (start : ℕ) where
  run_step :
      (i : ℕ) (m : Measured) (pairs : Fields) (content : Json) (ps : List Text)
      → IsExact (object pairs)
      → content_value (object pairs) ≡ ok content
      → run_from clock start i m (dumps (object pairs) ∷ ps)
        ≡ run_from clock start (i + 1) (measure (clock i) content m) ps
  unfolding run_from
  run_step i m pairs content ps exact c =
      rw
        (
          run_from,
          not_done seq_id created model (λ json. []) pairs,
          loads-dumps (object pairs) exact,
          c,
        )
        refl

  content_chunk :
      (text : Text)
      → content_value (chunk_value seq_id created model (content_delta text) none) ≡ ok (str text)
  unfolding content_value first_choice get_of chunk_value choice_of get_field same_list truthy_str
  content_chunk text = refl

  content_last :
      content_value (chunk_value seq_id created model no_fields (some (codes "stop"))) ≡ ok null
  unfolding content_value first_choice get_of chunk_value choice_of get_field same_list truthy_str
  content_last = refl

  run_done :
      (i : ℕ) (m : Measured)
      → run_from clock start i m (codes "[DONE]" ∷ []) ≡ serving_run start (clock i) m
  unfolding run_from same_list
  run_done i m = refl

  measured :
      (texts : List Text) (i : ℕ) (m : Measured) (said : List Text)
      → m.chunks ≡ map str said
      → Measures
          (m.events + length texts + 1)
          (length m.token_arrivals + length (non_empty texts))
          (flatten said ++ flatten texts)
          (clock (i + length texts + 1) - start)
          (run_from clock start i m (payloads seq_id created model texts))
  unfolding payloads chunk_value measure flatten truthy_str
  measured [] i m said h =
      let after : Measured = record m { events = m.events + 1 } in
      Measures-adapt _ _ _ _ _ (serving_run_lem start (clock (i + 1)) after said h) (omega arith)
        (omega arith) (sym (append-nil (flatten said))) (ap (λ k. clock k - start) (omega arith))
        (run_step i m _ null (codes "[DONE]" ∷ []) (IsExact-last seq_id created model) content_last
          ∙ run_done (i + 1) after)
  measured ([] ∷ texts) i m said h =
      let after : Measured = record m { events = m.events + 1 } in
      Measures-adapt _ _ _ _ _ (measured texts (i + 1) after said h) (omega arith) refl refl
        (ap (λ k. clock k - start) (omega arith))
        (run_step i m _ (str []) (payloads seq_id created model texts)
          (IsExact-chunk seq_id created model []) (content_chunk []))
  measured ((c ∷ cs) ∷ texts) i m said h =
      let after = measure (clock i) (str (c ∷ cs)) m in
      let kept : after.chunks ≡ map str (said ++ (c ∷ cs) ∷ []) =
        ap (λ l. l ++ str (c ∷ cs) ∷ []) h ∙ map-snoc said (c ∷ cs) in
      Measures-adapt _ _ _ _ _ (measured texts (i + 1) after (said ++ (c ∷ cs) ∷ []) kept)
        (omega arith) (omega (arith, length-append m.token_arrivals (clock i ∷ [])))
        (ap (λ l. l ++ flatten texts) (flatten-snoc said (c ∷ cs))
          ∙ append_assoc (flatten said) (c ∷ cs) (flatten texts))
        (ap (λ k. clock k - start) (omega arith))
        (run_step i m _ (str (c ∷ cs)) (payloads seq_id created model texts)
          (IsExact-chunk seq_id created model (c ∷ cs)) (content_chunk (c ∷ cs)))

  -- For any texts, clock and start, the benchmark's loop over the events that the server sends for
  -- the texts returns a run: it counts one event more than texts, one chunk for each text that is
  -- not empty, has the texts one after the other as its text, their length as its characters, and
  -- as its total the time from the start to the last payload.
  pub run_from-chat_completion_events :
      (texts : List Text)
      → (run : ServingRun) × (run_from clock start 0 nothing_yet (
            iter_sse_payloads (lines (flatten (chat_completion_events seq_id created model texts))))
          ≡ ok run)
        × (run.events ≡ length texts + 1)
        × (run.token_chunks ≡ length (non_empty texts))
        × (run.text ≡ flatten texts)
        × (run.chars ≡ length (flatten texts))
        × (run.ttot_seconds ≡ clock (length texts + 1) - start)
  unfolding flatten
  run_from-chat_completion_events texts =
      let h = measured texts 0 nothing_yet [] refl in
      let read : iter_sse_payloads
            (lines (flatten (chat_completion_events seq_id created model texts)))
          ≡ payloads seq_id created model texts =
        ap (λ l. iter_sse_payloads (lines (flatten l))) (payloads_lem seq_id created model texts)
        ∙ iter_sse_payloads-sse_event (payloads seq_id created model texts)
            (ArePayloads seq_id created model texts) in
      (
        h.run,
        ap (run_from clock start 0 nothing_yet) read ∙ h.returns,
        h.events_lem ∙ omega arith,
        h.chunks_lem ∙ omega arith,
        h.text_lem,
        h.chars_lem,
        h.ttot_lem ∙ ap (λ k. clock k - start) (omega arith),
      )
