-- ===== src/Client/Chat.antt =====
-- The rest of src/solort/cli.py: the request that the client sends, what it prints of an answer, and
-- the prompts that its loop takes from the terminal.
use solo_rt.Prelude.{
  true, Option, none, some, List, [], ◌∷◌, ◌++◌, if◌then◌else◌, ◌==◌, ℤ, Result, ok, err,
}
use mathlib.Core.List.{flatten}
use solo_rt.Prelude.Exec.{Exec}
use solo_rt.Cache.BlockHash.{Text}
use solo_rt.Core.Tokenizer.{strip}
use solo_rt.Api.Json.{
  Json, bool, int, float, str, array, object, no_items, item, Fields, no_fields, field, codes,
}
use solo_rt.Client.Sse.{iter_sse_payloads, stream_contents}

-- The command line's options; a float is its text in JSON.
pub record ChatOptions : Type 0 where
  pub url : Text
  pub model : Text
  pub session_id : Text
  pub max_tokens : ℤ
  pub temperature : Text
  pub top_p : Option Text
  pub top_k : Option ℤ
  pub repetition_penalty : Option Text
  pub max_repeated_token_run : Option ℤ

-- `if value is not None: payload[key] = value`
abbrev pub add_float : Text → Option Text → Fields → Fields
add_float key none rest = rest
add_float key (some value) rest = field key (float value) rest

abbrev pub add_int : Text → Option ℤ → Fields → Fields
add_int key none rest = rest
add_int key (some value) rest = field key (int value) rest

-- The payload of `stream_chat_text`.
unfoldable pub chat_payload : ChatOptions → Text → Json
chat_payload o prompt =
    let message = object (
      field (codes "role") (str (codes "user")) (field (codes "content") (str prompt) no_fields)) in
    object (
      field (codes "model") (str o.model) (
        field (codes "session_id") (str o.session_id) (
          field (codes "stream") (bool true) (
            field (codes "messages") (array (item message no_items)) (
              field (codes "max_tokens") (int o.max_tokens) (
                field (codes "temperature") (float o.temperature) (
                  add_float (codes "top_p") o.top_p (
                    add_int (codes "top_k") o.top_k (
                      add_float (codes "repetition_penalty") o.repetition_penalty (
                        add_int (codes "max_repeated_token_run") o.max_repeated_token_run
                          no_fields))))))))))

-- `url.rstrip('/')`
unfoldable pub strip_slashes : Text → Text
strip_slashes [] = []
strip_slashes (c ∷ cs) = elim (strip_slashes cs) [
  | [] ↦ if c == b'/' then [] else c ∷ []
  | d ∷ ds ↦ c ∷ d ∷ ds
]

unfoldable pub chat_url : ChatOptions → Text
unfolding strip_slashes
chat_url o = strip_slashes o.url ++ codes "/v1/chat/completions"

-- A server, with its state: the lines of its answer to a request, or what `urlopen` raises.
pub record Server (S : Type 0) : Type 0 where
  pub post : Text → Json → Exec S (List Text)

-- What is printed of an answer, and how it ends.
unfoldable pub printed_of : (Json → Text) → Result (List Text) → Text × Result (Unit {0})
unfolding iter_sse_payloads stream_contents
printed_of repr (err e) = ([], err e)
printed_of repr (ok lines) =
    let (texts, end) = stream_contents repr (iter_sse_payloads lines) in
    elim end [ err e ↦ (flatten texts, err e) | ok _ ↦ (flatten texts ++ codes "\n", ok tt) ]

-- `" ".join(args.prompt)`
unfoldable pub words_of : List Text → Text
words_of [] = []
words_of (w ∷ []) = w
words_of (w ∷ v ∷ ws) = w ++ codes " " ++ words_of (v ∷ ws)

module _ {S : Type 0} (repr : Json → Text) (server : Server S) (o : ChatOptions) where
  -- `print_response`, which reads `stream_chat_text`.
  unfoldable pub print_response : Text → S → Text × Result (Unit {0}) × S
  unfolding chat_payload chat_url printed_of
  print_response prompt s =
      let (answer, after) = server.post (chat_url o) (chat_payload o prompt) s in
      let (printed, end) = printed_of repr answer in (printed, end, after)

  -- What a line is followed by, where it was printed.
  abbrev print_before : Text → Text × Result (Unit {0}) × S → Text × Result (Unit {0}) × S
  print_before printed (more, end, s) = (printed ++ more, end, s)

  -- The loop of `repl` on the lines that the terminal gives before its end; the prompts "> " and the
  -- first line are not in what it prints.
  unfoldable pub repl : List Text → S → Text × Result (Unit {0}) × S
  unfolding print_response
  repl [] s = (codes "\n", ok tt, s)
  repl (line ∷ inputs) s =
      let prompt = strip line in
      let (printed, end, after) = print_response prompt s in
      let next = repl inputs s in
      let rest = repl inputs after in
      elim prompt [
        | [] ↦ next
        | c ∷ cs ↦ elim end [ err e ↦ (printed, err e, after) | ok _ ↦ print_before printed rest ]
      ]

  -- `main`, on the words of the command line.
  unfoldable pub main : List Text → List Text → S → Text × Result (Unit {0}) × S
  unfolding repl words_of
  main prompt inputs s = elim (strip (words_of prompt)) [
    | [] ↦ repl inputs s
    | c ∷ cs ↦ print_response (c ∷ cs) s
  ]
