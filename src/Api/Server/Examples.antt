-- ===== src/Api/Server/Examples.antt =====
-- Tests of `chat_completions`.
use solo_rt.Prelude.{[], ◌∷◌, pos}
use solo_rt.Core.Scheduler
use solo_rt.Core.Sequence.{Sequence}
use solo_rt.Api.Json.{codes}
use solo_rt.Api.Schemas.{ChatCompletionRequest, default_request, user}

abbrev asked : ChatCompletionRequest
asked = record (default_request (record { role = user; content = codes "hi" } ∷ [])) {
  max_tokens = pos 2;
}
