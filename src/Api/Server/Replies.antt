-- ===== src/Api/Server/Replies.antt =====
-- The answers of `chat_completions` to an accepted request.
use solo_rt.Prelude.{
  ℕ, ◌+◌, ◌≤◌, ◌<◌, ◌≡◌, refl, ap, ◌∙◌, true, List, String, length, ℤ, pos, negsuc, ok, arith,
}
use mathlib.Core.List.{flatten}
use solo_rt.Prelude.Sort.{All}
use solo_rt.Cache.BlockHash.{Text}
use solo_rt.Core.Sequence.{Sequence}
use solo_rt.Core.Session.{IsKeyed}
use solo_rt.Core.Scheduler
use solo_rt.Core.Runtime.{ModelExecutor, RuntimeCore}
use solo_rt.Core.Runtime.Requests.{Turn, ended}
use solo_rt.Core.Runtime.Requests.Alone.{IsDone}
use solo_rt.Core.Runtime.Requests.Rounds.{IsResponsive}
use solo_rt.Core.Runtime.Requests.Ends.{IsQuiet, HasSaid}
use solo_rt.Core.Runtime.Requests.Served.{prompt_of, add_request-stream_request}
use solo_rt.Api.Json.{codes}
use solo_rt.Api.Events.{chat_completion_events}
use solo_rt.Api.Schemas.{ChatCompletionRequest, accepts, int_between}
use solo_rt.Api.Server.{
  event_stream, to_ℕ, chat_request, streamed, respond, events_of, chat_completions,
}

between_bounds :
    (low high : ℕ) (n : ℤ) → int_between low high n ≡ true → (low ≤ to_ℕ n) × (to_ℕ n ≤ high)
between_bounds low high (pos n) h = ground (arith, h)
between_bounds low high (negsuc n) h = cc

pub accepts_room :
    (q : ChatCompletionRequest)
    → accepts q ≡ true
    → (0 < to_ℕ q.max_tokens) × (to_ℕ q.max_tokens ≤ 4096)
unfolding accepts
accepts_room q h =
    let inner : int_between 1 4096 q.max_tokens ≡ true = ground (arith, h) in
    let (low, high) = between_bounds 1 4096 q.max_tokens inner in (omega (arith, low), high)

module _ {E : Type 0} (digest blake2b : List ℕ → List ℕ) (x : ModelExecutor E)
    (seq_id fresh : String) (now : ℕ) (turns : List (Turn E)) (created : ℕ)
    (q : ChatCompletionRequest) (ids : List ℕ) (r : RuntimeCore E) (responds : IsResponsive x)
    (keyed : IsKeyed r.session_manager)
    (others_done : All (IsDone seq_id r.scheduler.sequences) r.scheduler.order)
    (chunks : 0 < r.scheduler.max_prefill_chunk_tokens) (accepted : accepts q ≡ true)
    (tokenized : prompt_of digest x seq_id fresh (chat_request q) r ≡ ok ids)
    (prompts : 0 < length ids) (enough : length ids + to_ℕ q.max_tokens < length turns)
    (quiet : All (IsQuiet seq_id) turns) where
  -- A request that asks for a stream.
  pub chat_completions-event_stream :
      q.stream ≡ true
      → (texts : List Text) × (r' : RuntimeCore E) × (chat_completions digest blake2b x fresh seq_id
            now turns created q r
          ≡ (
            event_stream
                (chat_completion_events (codes seq_id) created (codes q.model) texts)
                ended,
            r',
          ))
        × HasSaid seq_id (flatten texts) (to_ℕ q.max_tokens) (length ids) r'
  unfolding chat_completions respond streamed events_of chat_request
  chat_completions-event_stream streams =
      let (s, r1, texts, r', added, named, ran, kept) =
        add_request-stream_request digest x seq_id blake2b fresh now (chat_request q) turns ids r
          responds keyed others_done chunks (accepts_room q accepted).0 tokenized prompts enough
          quiet in
      (
        texts,
        r',
        ap (respond blake2b x turns created q) added ∙ rw (respond, streams, named, ran) refl,
        kept,
      )
