-- ===== src/Api/Server.antt =====
-- src/solort/api/server.py: the handlers of the app, each on a request that its schema accepted. What
-- FastAPI does with an answer is not modelled.
pub mod Replies
mod Examples
use solo_rt.Prelude.{
  ℕ, zero, suc, ◌+◌, Bool, true, false, Option, none, some, List, [], ◌∷◌, ◌++◌, map, String,
  length, if◌then◌else◌, ℤ, pos, negsuc, Error, Result, ok, err, value_error,
}
use solo_rt.Prelude.Exec.{Exec}
use solo_rt.Cache.BlockHash.{Text}
use solo_rt.Core.Sequence.{Sequence, TaskKind, foreground, background, branch, generated_tokens}
use solo_rt.Core.Scheduler
use solo_rt.Core.Runtime.{ModelExecutor, RuntimeCore, ChatRequest, or_default, add_request}
use solo_rt.Core.Runtime.Finish.{cancel_request}
use solo_rt.Core.Runtime.Requests.{
  Turn, Ending, ended, raised, going_on, stream_request, complete_request,
}
use solo_rt.Api.Json.{
  Json, null, bool, int, str, array, object, no_items, item, Fields, no_fields, field, codes,
}
use solo_rt.Api.Events.{chunk, content_delta, chat_completion_events}
use solo_rt.Api.Schemas.{
  ChatCompletionRequest, CancelRequest, TaskPriority, foreground_priority, background_priority,
  branch_priority, core_messages, require_target,
}

-- What a handler returns or raises; a handler that waits has not answered yet.
pub data Answer : Type 0 where
  json : ℕ → Json → Answer
  event_stream : List Text → Ending → Answer
  failed : Error → Answer
  waits : Answer

-- `TaskKind(request.priority)`
abbrev pub task_kind : TaskPriority → TaskKind
task_kind foreground_priority = foreground
task_kind background_priority = background
task_kind branch_priority = branch

abbrev pub to_ℕ : ℤ → ℕ
to_ℕ (pos n) = n
to_ℕ (negsuc n) = 0

-- The arguments that the handler gives to `add_request`.
unfoldable pub chat_request : ChatCompletionRequest → ChatRequest
unfolding core_messages
chat_request q = record {
  model_id = q.model;
  messages = core_messages q;
  max_new_tokens = to_ℕ q.max_tokens;
  session_id = q.session_id;
  task_kind = task_kind q.priority;
  temperature = q.temperature;
  top_p = q.top_p;
  top_k = q.top_k;
  repetition_penalty = q.repetition_penalty;
  max_repeated_token_run = q.max_repeated_token_run;
  enable_thinking = some q.enable_thinking;
}

unfoldable pub usage : ℕ → ℕ → Json
usage prompt_tokens completion_tokens = object (
    field (codes "prompt_tokens") (int (pos prompt_tokens)) (
      field (codes "completion_tokens") (int (pos completion_tokens))
        (field (codes "total_tokens") (int (pos (prompt_tokens + completion_tokens))) no_fields)))

-- The one choice of a completion.
unfoldable pub message_choice : Text → Json
message_choice content = object (
    field (codes "index") (int (pos 0)) (
      field (codes "message")
        (object (
          field (codes "role") (str (codes "assistant"))
            (field (codes "content") (str content) no_fields)))
        (field (codes "finish_reason") (str (codes "stop")) no_fields)))

-- `_chat_completion_response`
unfoldable pub chat_completion_response : Text → Text → Text → Text → ℕ → ℕ → ℕ → Json
unfolding usage message_choice
chat_completion_response request_id session_id model content prompt_tokens completion_tokens
      created =
    object (
      field (codes "id") (str request_id) (
        field (codes "object") (str (codes "chat.completion")) (
          field (codes "created") (int (pos created)) (
            field (codes "model") (str model) (
              field (codes "session_id") (str session_id) (
                field (codes "choices") (array (item (message_choice content) no_items))
                  (field (codes "usage") (usage prompt_tokens completion_tokens) no_fields)))))))

-- The events that a stream has sent: the last two only once the request's stream has ended.
unfoldable pub events_of : Text → ℕ → Text → List Text → Ending → List Text
unfolding chat_completion_events
events_of seq_id created model texts ended = chat_completion_events seq_id created model texts
events_of seq_id created model texts _ =
    map (λ token_text. chunk seq_id created model (content_delta token_text) none) texts

module _ {E : Type 0} where
  -- The answer for a stream.
  unfoldable pub streamed :
      Text → ℕ → Text → List Text × Ending × RuntimeCore E → Answer × RuntimeCore E
  unfolding events_of
  streamed seq_id created model (texts, ending, r) =
      (event_stream (events_of seq_id created model texts ending) ending, r)

  -- The answer in one piece, of the sequence as the request left it.
  unfoldable pub completed :
      Sequence → ℕ → Text → Text × Ending × RuntimeCore E → Answer × RuntimeCore E
  unfolding chat_completion_response
  completed s created model (content, going_on, r) = (waits, r)
  completed s created model (content, raised e, r) = (failed e, r)
  completed s created model (content, ended, r) =
      let last = or_default (Scheduler.get s.seq_id r.scheduler) s in
      (
        json 200 (
            chat_completion_response (codes s.seq_id) (codes s.session_id) model content
              last.num_prompt_tokens (generated_tokens last) created),
        r,
      )

  -- What `chat_completions` does with the sequence that `add_request` made.
  unfoldable pub respond :
      (List ℕ → List ℕ)
      → ModelExecutor E
      → List (Turn E)
      → ℕ
      → ChatCompletionRequest
      → Result Sequence × RuntimeCore E
      → Answer × RuntimeCore E
  unfolding streamed completed
  respond blake2b x turns created q (err e, r) = (failed e, r)
  respond blake2b x turns created q (ok s, r) =
      if q.stream
      then streamed (codes s.seq_id) created (codes q.model)
          (stream_request blake2b x s.seq_id turns r)
      else completed s created (codes q.model) (complete_request blake2b x s.seq_id turns r)

  -- `chat_completions`. A stream's answer is given as it is after these turns.
  unfoldable pub chat_completions :
      (List ℕ → List ℕ)
      → (List ℕ → List ℕ)
      → ModelExecutor E
      → String
      → String
      → ℕ
      → List (Turn E)
      → ℕ
      → ChatCompletionRequest
      → RuntimeCore E
      → Answer × RuntimeCore E
  unfolding respond chat_request
  chat_completions digest blake2b x fresh seq_id now turns created q r =
      respond blake2b x turns created q (add_request digest x fresh seq_id now (chat_request q) r)

  unfoldable pub cancel_answer : Result Bool × RuntimeCore E → Answer × RuntimeCore E
  cancel_answer (err e, r) = (failed e, r)
  cancel_answer (ok cancelled, r) =
      (json 200 (object (field (codes "cancelled") (bool cancelled) no_fields)), r)

  -- `cancel`
  unfoldable pub cancel : ℕ → CancelRequest → RuntimeCore E → Answer × RuntimeCore E
  unfolding cancel_answer
  cancel now q r = cancel_answer (cancel_request now q.request_id q.session_id r)

-- `_not_implemented`
unfoldable pub not_implemented : Text → Answer
not_implemented detail = json 501 (
    object (
      field (codes "error") (str (codes "not_implemented"))
        (field (codes "detail") (str detail) no_fields)))

unfoldable pub responses_stub : Answer
unfolding not_implemented
responses_stub =
    not_implemented (codes "The Responses API is reserved for a later SoloRT milestone.")

unfoldable pub embeddings_stub : Answer
unfolding not_implemented
embeddings_stub = not_implemented (codes "Embeddings are outside the text-generation MVP.")

unfoldable pub health : Answer
health = json 200 (object (field (codes "status") (str (codes "ok")) no_fields))
