-- ===== src/Client/Examples.antt =====
-- Tests of the client.
use solo_rt.Prelude.{◌+◌, ◌-◌, ◌*◌}
use solo_rt.Prelude.{◌≡◌, refl, true, List, [], ◌∷◌, ◌++◌, pos, ok, arith, length}
use mathlib.Core.List.{flatten}
use solo_rt.Cache.BlockHash.{Text}
use solo_rt.Core.Runtime.{RuntimeCore, tokenize_for_executor}
use solo_rt.Core.Runtime.Requests.{ended}
use solo_rt.Core.Runtime.Requests.Ends.{HasSaid}
use solo_rt.Core.Runtime.Requests.Examples.{plain, plain_responds, empty, turn, no_sessions, quiet}
use solo_rt.Api.Json.{codes}
use solo_rt.Api.Events.{chat_completion_events}
use solo_rt.Api.Schemas.{ChatCompletionRequest, default_request, user, accepts, all_have_content}
use solo_rt.Api.Server.{event_stream, chat_completions}
use solo_rt.Client.Sse.{lines, iter_sse_payloads, stream_contents}
use solo_rt.Client.Sse.Answer.{non_empty, stream_contents-chat_completion_events}
use solo_rt.Client.Chat.{printed_of}
use solo_rt.Client.ChatScript.{stream_reply}
use solo_rt.Client.ChatScript.Replies.{stream_reply-chat_completion_events}
use solo_rt.Client.Bench.{ServingRun, nothing_yet, run_from}
use solo_rt.Client.Bench.Answers.{run_from-chat_completion_events}
use solo_rt.Client.Printed.{printed_of-chat_completions}

stream_contents-chat_completion_events_example :
    stream_contents
      (λ json. [])
      (iter_sse_payloads (
        lines (
          flatten (
            chat_completion_events
              (codes "req_1")
              7
              (codes "m")
              (codes "a" ∷ [] ∷ codes "b" ∷ [])))))
    ≡ (non_empty (codes "a" ∷ [] ∷ codes "b" ∷ []), ok tt)
stream_contents-chat_completion_events_example =
    stream_contents-chat_completion_events (codes "req_1") 7 (codes "m") (λ json. [])
      (codes "a" ∷ [] ∷ codes "b" ∷ [])

stream_reply-chat_completion_events_example :
    stream_reply (
      lines (
        flatten
          (chat_completion_events (codes "req_1") 7 (codes "m") (codes "a" ∷ [] ∷ codes "b" ∷ []))))
    ≡ (
      flatten (codes "a" ∷ [] ∷ codes "b" ∷ []) ++ codes "\n",
      ok (flatten (codes "a" ∷ [] ∷ codes "b" ∷ [])),
    )
stream_reply-chat_completion_events_example =
    stream_reply-chat_completion_events (codes "req_1") 7 (codes "m")
      (codes "a" ∷ [] ∷ codes "b" ∷ [])

run_from-chat_completion_events_example :
    (run : ServingRun) × (run_from
        (λ i. 10 * i)
        3
        0
        nothing_yet
        (iter_sse_payloads (
          lines (
            flatten (
              chat_completion_events
                (codes "req_1")
                7
                (codes "m")
                (codes "a" ∷ [] ∷ codes "b" ∷ [])))))
      ≡ ok run)
    × (run.events ≡ 4)
    × (run.token_chunks ≡ 2)
    × (run.text ≡ flatten (codes "a" ∷ [] ∷ codes "b" ∷ []))
    × (run.chars ≡ length (flatten (codes "a" ∷ [] ∷ codes "b" ∷ [])))
    × (run.ttot_seconds ≡ 10 * (3 + 1) - 3)
run_from-chat_completion_events_example =
    run_from-chat_completion_events (codes "req_1") 7 (codes "m") (λ i. 10 * i) 3
      (codes "a" ∷ [] ∷ codes "b" ∷ [])

abbrev asked : ChatCompletionRequest
asked = record (default_request (record { role = user; content = codes "hi" } ∷ [])) {
  max_tokens = pos 2;
  stream = true;
}

asked_is_valid : accepts asked ≡ true
unfolding accepts all_have_content
asked_is_valid = refl

printed_of-chat_completions_example :
    (events : List Text) × (text : Text) × (r' : RuntimeCore Unit) × (chat_completions
        (λ b. b)
        (λ b. b)
        plain
        "sess_1"
        "req_1"
        1
        (turn ∷ turn ∷ turn ∷ turn ∷ turn ∷ turn ∷ [])
        7
        asked
        empty
      ≡ (event_stream events ended, r'))
    × (printed_of (λ json. []) (ok (lines (flatten events))) ≡ (text ++ codes "\n", ok tt))
    × HasSaid "req_1" text 2 3 r'
unfolding tokenize_for_executor
printed_of-chat_completions_example =
    printed_of-chat_completions (λ b. b) (λ b. b) plain "req_1" "sess_1" 1
      (turn ∷ turn ∷ turn ∷ turn ∷ turn ∷ turn ∷ []) 7 asked (5 ∷ 6 ∷ 7 ∷ []) empty (λ json. [])
      plain_responds no_sessions tt (omega arith) asked_is_valid refl (omega arith) (omega arith)
      (quiet, (quiet, (quiet, (quiet, (quiet, (quiet, tt)))))) refl
