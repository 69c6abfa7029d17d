-- ===== src/Api/Schemas.antt =====
-- src/solort/api/schemas.py: the requests of the API, and the bounds that pydantic checks on their
-- fields. A value's type is checked before; a float is a decimal.
use solo_rt.Prelude.{
  ℕ, ◌*◌, ◌^◌, Bool, true, false, ◌&&◌, Option, none, some, List, [], ◌∷◌, map, String, leb, ℤ, pos,
  negsuc, Result, ok, err, value_error,
}
use solo_rt.Cache.BlockHash.{Text}
use solo_rt.Core.Sequence.{Decimal}
use solo_rt.Core.Session.{Message}
use solo_rt.Api.Json.{codes}

pub data ChatRole : Type 0 where
  system user assistant tool : ChatRole

pub data TaskPriority : Type 0 where
  foreground_priority background_priority branch_priority : TaskPriority

pub record ChatMessage : Type 0 where
  pub role : ChatRole
  pub content : Text

abbrev pub role_text : ChatRole → Text
role_text system = codes "system"
role_text user = codes "user"
role_text assistant = codes "assistant"
role_text tool = codes "tool"

unfoldable pub to_core_message : ChatMessage → Message
to_core_message m = record { role = role_text m.role; content = m.content }

pub record ChatCompletionRequest : Type 0 where
  pub model : String
  pub messages : List ChatMessage
  pub stream : Bool
  pub max_tokens : ℤ
  pub temperature : Decimal
  pub top_p : Option Decimal
  pub top_k : Option ℤ
  pub repetition_penalty : Option Decimal
  pub max_repeated_token_run : Option ℤ
  pub enable_thinking : Bool
  pub session_id : Option String
  pub priority : TaskPriority

-- The fields that have a default, for a request of these messages.
abbrev pub default_request : List ChatMessage → ChatCompletionRequest
default_request messages = record {
  model = "Qwen/Qwen3-4B";
  messages = messages;
  stream = false;
  max_tokens = pos 16;
  temperature = record { digits = pos 1; places = 0 };
  top_p = none;
  top_k = none;
  repetition_penalty = none;
  max_repeated_token_run = none;
  enable_thinking = false;
  session_id = none;
  priority = foreground_priority;
}

-- `ge=low, le=high` on an int and on a float.
abbrev pub int_between : ℕ → ℕ → ℤ → Bool
int_between low high (negsuc n) = false
int_between low high (pos n) = leb low n && leb n high

abbrev pub float_between : ℕ → ℕ → Decimal → Bool
float_between low high d = elim d.digits [
  | negsuc n ↦ false
  | pos n ↦ leb (low * 10 ^ d.places) n && leb n (high * 10 ^ d.places)
]

-- `ge=0` on an int.
abbrev pub not_negative : ℤ → Bool
not_negative (negsuc n) = false
not_negative (pos n) = true

-- A constraint on a value that may be `None`.
abbrev pub if_given : {A : Type 0} → (A → Bool) → Option A → Bool
if_given accepts none = true
if_given accepts (some a) = accepts a

-- `min_length=1`
abbrev pub some_of : {A : Type 0} → List A → Bool
some_of [] = false
some_of (a ∷ rest) = true

unfoldable pub all_have_content : List ChatMessage → Bool
all_have_content [] = true
all_have_content (m ∷ ms) = some_of m.content && all_have_content ms

-- The constraints of `ChatCompletionRequest`.
unfoldable pub accepts : ChatCompletionRequest → Bool
unfolding all_have_content
accepts q =
    some_of q.messages
    && all_have_content q.messages
    && int_between 1 4096 q.max_tokens
    && float_between 0 2 q.temperature
    && if_given (float_between 0 1) q.top_p
    && if_given not_negative q.top_k
    && if_given (float_between 1 2) q.repetition_penalty
    && if_given (int_between 0 1024) q.max_repeated_token_run

unfoldable pub core_messages : ChatCompletionRequest → List Message
unfolding to_core_message
core_messages q = map to_core_message q.messages

pub record CancelRequest : Type 0 where
  pub request_id : Option String
  pub session_id : Option String

-- `require_target`
unfoldable pub require_target : CancelRequest → Result CancelRequest
require_target q = elim q.request_id [
  | some id ↦ ok q
  | none ↦ elim q.session_id [ some id ↦ ok q | none ↦ err value_error ]
]
