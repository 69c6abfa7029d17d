-- ===== src/Client/Sse.antt =====
-- src/solort/cli.py: the events of a streamed answer, and the texts in them. The lines are those that
-- iterating over a response gives: each keeps the "\n" that ends it, and is UTF-8 decoded.
pub mod Lines
pub mod Payload
pub mod Answer
use solo_rt.Prelude.{
  ℕ, zero, suc, ◌+◌, pos, ℤ, negsuc, index_error, Bool, true, false, ◌&&◌, ◌||◌, Option, none, some,
  List, [], ◌∷◌, ◌++◌, if◌then◌else◌, ◌==◌, Result, ok, err, type_error, key_error, attribute_error,
}
use solo_rt.Prelude.Errors.{◌>>=◌}
use solo_rt.Cache.BlockHash.{Text}
use solo_rt.Cache.PrefixCache.{same_list}
use solo_rt.Core.Tokenizer.{strip, join_lines}
use solo_rt.Api.Json.{
  Json, null, bool, int, float, str, array, object, dump_int, Items, no_items, item, Fields,
  no_fields, field, codes, get_field,
}
use solo_rt.Api.Json.Loads.{behind_literal, loads}

-- The lines of a response, each with its end.
unfoldable pub lines : Text → List Text
lines [] = []
lines (c ∷ cs) =
    let rest = lines cs in
    if c == 10
    then (c ∷ []) ∷ rest
    else elim rest [ [] ↦ (c ∷ []) ∷ [] | line ∷ more ↦ (c ∷ line) ∷ more ]

-- `line.rstrip("\r\n")`
unfoldable pub strip_end : Text → Text
strip_end [] = []
strip_end (c ∷ cs) = elim (strip_end cs) [
  | [] ↦ if (c == 13) || (c == 10) then [] else c ∷ []
  | d ∷ ds ↦ c ∷ d ∷ ds
]

-- The text behind "data:", if the line starts so.
unfoldable pub data_of : Text → Option Text
unfolding behind_literal
data_of line = elim (behind_literal (codes "data:") line) [
  | none ↦ none
  | some rest ↦ some (strip rest)
]

-- What the data lines of one event come to.
abbrev pub flush : List Text → List Text
flush [] = []
flush (line ∷ more) = join_lines (line ∷ more) ∷ []

-- `iter_sse_payloads`, with the data lines of the event that is being read.
unfoldable pub payloads_from : List Text → List Text → List Text
unfolding strip_end data_of
payloads_from data_lines [] = flush data_lines
payloads_from data_lines (raw_line ∷ raw_lines) = elim (strip_end raw_line) [
  | [] ↦ flush data_lines ++ payloads_from [] raw_lines
  | c ∷ cs ↦
      payloads_from
        (elim (data_of (c ∷ cs)) [ none ↦ data_lines | some text ↦ data_lines ++ text ∷ [] ])
        raw_lines
]

unfoldable pub iter_sse_payloads : List Text → List Text
unfolding payloads_from
iter_sse_payloads raw_lines = payloads_from [] raw_lines

-- Whether a number's text is that of 0: no other digit stands before its exponent.
unfoldable pub zeros : Text → Bool
zeros [] = true
zeros (c ∷ cs) =
    let rest = zeros cs in
    if (c == b'e') || (c == b'E')
    then true
    else if (c == b'-') || (c == b'.') || (c == 48)
    then rest
    else false

-- `str(value)` of a value that counts as true in a test, none of any other. What Python writes for a
-- float, a list or a dict is `repr`.
unfoldable pub truthy_str : (Json → Text) → Json → Option Text
unfolding dump_int zeros
truthy_str repr null = none
truthy_str repr (bool b) = if b then some (codes "True") else none
truthy_str repr (int (pos zero)) = none
truthy_str repr (int n) = some (dump_int n)
truthy_str repr (float t) = if zeros t then none else some (repr (float t))
truthy_str repr (str []) = none
truthy_str repr (str (c ∷ cs)) = some (c ∷ cs)
truthy_str repr (array no_items) = none
truthy_str repr (array items) = some (repr (array items))
truthy_str repr (object no_fields) = none
truthy_str repr (object pairs) = some (repr (object pairs))

-- `value.get(key)`; only a dict has the method.
unfoldable pub get_of : Json → Text → Result (Option Json)
unfolding get_field
get_of (object pairs) key = ok (get_field key pairs)
get_of _ key = err attribute_error

-- `choices[0]`, of choices that are true.
unfoldable pub first_choice : Json → Result Json
first_choice (array (item v items)) = ok v
first_choice (array no_items) = err index_error
first_choice (str (c ∷ cs)) = ok (str (c ∷ []))
first_choice (str []) = err index_error
first_choice (object pairs) = err key_error
first_choice _ = err type_error

abbrev pub value_or : Option Json → Json → Json
value_or none d = d
value_or (some v) d = v

module _ (repr : Json → Text) where
  -- The content of an event's first choice.
  unfoldable pub content_of : Json → Result (Option Text)
  unfolding truthy_str get_of first_choice
  content_of event = get_of event (codes "choices") >>= λ choices.
      elim (truthy_str repr (value_or choices null)) [
        | none ↦ ok none
        | some t ↦ first_choice (value_or choices null) >>= λ choice.
            get_of choice (codes "delta") >>= λ delta.
            get_of (value_or delta (object no_fields)) (codes "content") >>= λ content.
            ok (truthy_str repr (value_or content null))
      ]

  unfoldable pub content_from_sse_payload : Text → Result (Option Text)
  unfolding loads content_of same_list
  content_from_sse_payload payload =
      if same_list payload (codes "[DONE]") then ok none else loads payload >>= content_of

  -- The loop of `stream_chat_text` over the events: what it yields, and how it ends.
  unfoldable pub stream_contents : List Text → List Text × Result (Unit {0})
  unfolding content_from_sse_payload
  stream_contents [] = ([], ok tt)
  stream_contents (payload ∷ payloads) =
      let (texts, end) = stream_contents payloads in
      elim (content_from_sse_payload payload) [
        | err e ↦ ([], err e)
        | ok content ↦ elim content [
          | none ↦ (texts, end)
          | some text ↦ elim text [ [] ↦ (texts, end) | c ∷ cs ↦ ((c ∷ cs) ∷ texts, end) ]
        ]
      ]
