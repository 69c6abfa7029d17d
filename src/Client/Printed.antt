-- ===== src/Client/Printed.antt =====
-- From a chat request to the terminal: what the client prints is what the session keeps as the reply.
use solo_rt.Prelude.{ℕ, ◌+◌, ◌<◌, ◌≡◌, ap, ◌∙◌, true, List, ◌++◌, String, length, Result, ok, err}
use mathlib.Core.List.{flatten}
use solo_rt.Prelude.Sort.{All}
use solo_rt.Cache.BlockHash.{Text}
use solo_rt.Core.Session.{IsKeyed}
use solo_rt.Core.Runtime.{ModelExecutor, RuntimeCore}
use solo_rt.Core.Runtime.Requests.{Turn, ended}
use solo_rt.Core.Runtime.Requests.Alone.{IsDone}
use solo_rt.Core.Runtime.Requests.Rounds.{IsResponsive}
use solo_rt.Core.Runtime.Requests.Ends.{IsQuiet, HasSaid}
use solo_rt.Core.Runtime.Requests.Served.{prompt_of}
use solo_rt.Api.Json.{Json, codes}
use solo_rt.Api.Schemas.{ChatCompletionRequest, accepts}
use solo_rt.Api.Server.{event_stream, to_ℕ, chat_request, chat_completions}
use solo_rt.Api.Server.Replies.{chat_completions-event_stream}
use solo_rt.Client.Sse.{lines, iter_sse_payloads, stream_contents}
use solo_rt.Client.Sse.Answer.{non_empty, flatten-non_empty, stream_contents-chat_completion_events}
use solo_rt.Client.Chat.{printed_of}

printed_lem :
    (repr : Json → Text) (raw_lines texts : List Text)
    → stream_contents repr (iter_sse_payloads raw_lines) ≡ (non_empty texts, ok tt)
    → printed_of repr (ok raw_lines) ≡ (flatten texts ++ codes "\n", ok tt)
unfolding printed_of
printed_lem repr raw_lines texts h =
    ap
      (λ (out : List Text × Result (Unit {0})). elim out.1 as (λ _. Text × Result (Unit {0})) [
        | err e ↦ (flatten out.0, err e)
        | ok _ ↦ (flatten out.0 ++ codes "\n", ok tt)
      ])
      h
    ∙ ap (λ t. (t ++ codes "\n", ok tt)) (flatten-non_empty texts)

module _ {E : Type 0} (digest blake2b : List ℕ → List ℕ) (x : ModelExecutor E)
    (seq_id fresh : String) (now : ℕ) (turns : List (Turn E)) (created : ℕ)
    (q : ChatCompletionRequest) (ids : List ℕ) (r : RuntimeCore E) (repr : Json → Text) where
  -- For an executor that always returns, has neither paged KV nor a prefix cache and gives at least
  -- one sample in a decode step, sessions filed under their own ids, a positive chunk limit, a
  -- scheduler in which every sequence has another id and is finished or cancelled, an accepted
  -- request that asks for a stream and whose prompt can be tokenised and is not empty, and more
  -- rounds than the prompt and max_tokens have tokens together: if during the stream the other
  -- tasks neither touch the sequence nor leave another one that may run, then the stream of the
  -- answer ends, and what the client prints of its bytes is, but for a line end, exactly the
  -- response text of the request's sequence, which has finished with at most max_tokens tokens and
  -- the prompt count of that prompt.
  pub printed_of-chat_completions :
      IsResponsive x
      → IsKeyed r.session_manager
      → All (IsDone seq_id r.scheduler.sequences) r.scheduler.order
      → 0 < r.scheduler.max_prefill_chunk_tokens
      → accepts q ≡ true
      → prompt_of digest x seq_id fresh (chat_request q) r ≡ ok ids
      → 0 < length ids
      → length ids + to_ℕ q.max_tokens < length turns
      → All (IsQuiet seq_id) turns
      → q.stream ≡ true
      → (events : List Text) × (text : Text) × (r' : RuntimeCore E) × (chat_completions digest
            blake2b x fresh seq_id now turns created q r
          ≡ (event_stream events ended, r'))
        × (printed_of repr (ok (lines (flatten events))) ≡ (text ++ codes "\n", ok tt))
        × HasSaid seq_id text (to_ℕ q.max_tokens) (length ids) r'
  printed_of-chat_completions responds keyed done chunks accepted tokenized prompts enough quiet
        streams =
      let (texts, r', ran, kept) =
        chat_completions-event_stream digest blake2b x seq_id fresh now turns created q ids r
          responds keyed done chunks accepted tokenized prompts enough quiet streams in
      (
        _,
        flatten texts,
        r',
        ran,
        printed_lem repr _ texts (
            stream_contents-chat_completion_events (codes seq_id) created (codes q.model) repr
              texts),
        kept,
      )
