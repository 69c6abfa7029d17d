-- ===== src/Client/ChatScript.antt =====
-- src/scripts/chat.py: a client that keeps a session, and skips what it cannot read. The lines of a
-- response are UTF-8 decoded; the exceptions of `json.loads` are the errors of its model.
pub mod Replies
use solo_rt.Prelude.{
  ℕ, zero, suc, Bool, true, false, ◌||◌, Option, none, some, List, [], ◌∷◌, ◌++◌, String,
  if◌then◌else◌, ℤ, pos, negsuc, Error, Result, ok, err, type_error, key_error, index_error,
  attribute_error, value_error,
}
use mathlib.Core.List.{flatten}
use solo_rt.Prelude.Errors.{◌>>=◌}
use solo_rt.Cache.BlockHash.{Text, codes}
use solo_rt.Cache.PrefixCache.{same_list}
use solo_rt.Core.Tokenizer.{strip}
use solo_rt.Api.Json.{
  Json, null, bool, int, float, str, array, object, Items, no_items, item, Fields, no_fields, field,
  get_field,
}
use solo_rt.Api.Json.Loads.{loads}
use solo_rt.Client.Sse.{data_of, get_of, value_or, truthy_str}

-- `[0]`, of any value.
unfoldable pub first_of : Json → Result Json
first_of (array (item v items)) = ok v
first_of (array no_items) = err index_error
first_of (str (c ∷ cs)) = ok (str (c ∷ []))
first_of (str []) = err index_error
first_of (object pairs) = err key_error
first_of _ = err type_error

-- `obj.get("choices", [{}])[0].get("delta", {}).get("content")`
unfoldable pub delta_of : Json → Result Json
unfolding get_of first_of
delta_of obj = get_of obj (codes "choices") >>= λ choices.
    first_of (value_or choices (array (item (object no_fields) no_items))) >>= λ choice.
    get_of choice (codes "delta") >>= λ delta.
    get_of (value_or delta (object no_fields)) (codes "content") >>= λ content.
    ok (value_or content null)

-- Python's truth of a value.
abbrev pub is_true : Json → Bool
is_true v = elim (truthy_str (λ w. []) v) [ none ↦ false | some t ↦ true ]

-- What the rest of the loop yields, behind this delta: `sys.stdout.write` of a value that is true and
-- no text raises `TypeError`.
unfoldable pub behind_delta : Json → List Text × Result (Unit {0}) → List Text × Result (Unit {0})
behind_delta (str []) rest = rest
behind_delta (str (c ∷ cs)) (texts, end) = ((c ∷ cs) ∷ texts, end)
behind_delta v rest = if is_true v then ([], err type_error) else rest

-- One payload; what `json.loads` does not read is skipped.
unfoldable pub behind_payload : Text → List Text × Result (Unit {0}) → List Text × Result (Unit {0})
unfolding loads delta_of behind_delta same_list
behind_payload payload rest =
    if same_list payload (codes "[DONE]") then ([], ok tt) else elim (loads payload) [
      | err e ↦ rest
      | ok obj ↦ elim (delta_of obj) [ err e ↦ ([], err e) | ok delta ↦ behind_delta delta rest ]
    ]

-- The loop of `stream_reply` over the lines: the pieces that it writes, and how it ends.
unfoldable pub pieces_of : List Text → List Text × Result (Unit {0})
unfolding data_of behind_payload
pieces_of [] = ([], ok tt)
pieces_of (raw ∷ raws) =
    let rest = pieces_of raws in
    elim (data_of (strip raw)) [ none ↦ rest | some payload ↦ behind_payload payload rest ]

-- What `stream_reply` writes and returns, or raises.
unfoldable pub stream_reply : List Text → Text × Result Text
unfolding pieces_of
stream_reply raws =
    let (pieces, end) = pieces_of raws in
    let text = flatten pieces in
    elim end [ err e ↦ (text, err e) | ok _ ↦ (text ++ codes "\n", ok text) ]

-- The body of the request.
unfoldable pub reply_payload : Text → Text → Text → ℤ → Text → Json
reply_payload model session_id user_text max_tokens temperature =
    let message = object (
      field (codes "role") (str (codes "user"))
        (field (codes "content") (str user_text) no_fields)) in
    object (
      field (codes "model") (str model) (
        field (codes "stream") (bool true) (
          field (codes "session_id") (str session_id) (
            field (codes "messages") (array (item message no_items)) (
              field (codes "max_tokens") (int max_tokens)
                (field (codes "temperature") (float temperature) no_fields))))))

-- What the loop of `main` does with a line of input.
pub data Command : Type 0 where
  skip leave reset : Command
  say : Text → Command

unfoldable pub command_of : Text → Command
unfolding same_list
command_of line = elim (strip line) [
  | [] ↦ skip
  | c ∷ cs ↦
      if same_list (c ∷ cs) (codes "/exit") || same_list (c ∷ cs) (codes "/quit")
      then leave
      else if same_list (c ∷ cs) (codes "/reset")
      then reset
      else say (c ∷ cs)
]

-- The messages that `main` sends, each with its session, from the session in use and the ids of those
-- to come; an exception of a turn is printed, and the loop goes on.
unfoldable pub turns_of : Text → List Text → List Text → List (Text × Text)
unfolding command_of
turns_of session_id ids [] = []
turns_of session_id ids (line ∷ inputs) = elim (command_of line) [
  | skip ↦ turns_of session_id ids inputs
  | leave ↦ []
  | reset ↦ elim ids [ [] ↦ turns_of session_id [] inputs | id ∷ more ↦ turns_of id more inputs ]
  | say text ↦ (session_id, text) ∷ turns_of session_id ids inputs
]
