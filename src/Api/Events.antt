-- ===== src/Api/Events.antt =====
-- src/solort/api/streaming.py: the server-sent events of a streamed answer.
use solo_rt.Prelude.{ℕ, Option, none, some, List, [], ◌∷◌, ◌++◌, pos}
use solo_rt.Cache.BlockHash.{Text}
use solo_rt.Api.Json.{
  Json, null, int, str, array, object, no_items, item, Fields, no_fields, field, codes, dumps,
}

-- `sse_event`, of a text that is dumped already.
unfoldable pub sse_event : Text → Text
sse_event payload = codes "data: " ++ (payload ++ 10 ∷ 10 ∷ [])

abbrev pub optional_str : Option Text → Json
optional_str none = null
optional_str (some t) = str t

-- The choice of an event: what is new, and why the answer ended.
unfoldable pub choice_of : Fields → Option Text → Json
choice_of delta finish_reason = object (
    field (codes "index") (int (pos 0)) (
      field (codes "delta") (object delta)
        (field (codes "finish_reason") (optional_str finish_reason) no_fields)))

-- The value that `chunk` dumps.
unfoldable pub chunk_value : Text → ℕ → Text → Fields → Option Text → Json
unfolding choice_of
chunk_value seq_id created model delta finish_reason = object (
    field (codes "id") (str seq_id) (
      field (codes "object") (str (codes "chat.completion.chunk")) (
        field (codes "created") (int (pos created)) (
          field (codes "model") (str model) (
            field (codes "choices") (array (item (choice_of delta finish_reason) no_items))
              no_fields)))))

-- `chunk`
unfoldable pub chunk : Text → ℕ → Text → Fields → Option Text → Text
unfolding sse_event chunk_value dumps
chunk seq_id created model delta finish_reason =
    sse_event (dumps (chunk_value seq_id created model delta finish_reason))

-- `{"content": token_text}`
abbrev pub content_delta : Text → Fields
content_delta token_text = field (codes "content") (str token_text) no_fields

-- `chat_completion_events`, on the texts that the stream of the request yields.
unfoldable pub chat_completion_events : Text → ℕ → Text → List Text → List Text
unfolding chunk sse_event
chat_completion_events seq_id created model [] =
    chunk seq_id created model no_fields (some (codes "stop")) ∷ sse_event (codes "[DONE]") ∷ []
chat_completion_events seq_id created model (token_text ∷ token_texts) =
    chunk seq_id created model (content_delta token_text) none
    ∷ chat_completion_events seq_id created model token_texts
