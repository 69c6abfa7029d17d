-- ===== src/Core/Runtime/Requests/Examples.antt =====
-- Tests of a whole request.
use solo_rt.Prelude.{◌≡◌, refl, false, none, some, [], ◌∷◌, pos, ok, arith}
use solo_rt.Prelude.Dict
use solo_rt.Cache.VramManager.{default_budget}
use solo_rt.Core.Sequence.{Sequence, foreground}
use solo_rt.Core.Session.{IsKeyed}
use solo_rt.Core.Metrics.{new_metrics}
use solo_rt.Core.Examples.{sample, kv, no_prefixes, said}
use solo_rt.Core.Runtime.{
  ModelExecutor, RuntimeCore, ChatRequest, one, add_request, tokenize_for_executor,
}
use solo_rt.Core.Runtime.Execute.{normalize_samples}
use solo_rt.Core.Runtime.Requests.{Turn, ended, complete_request}
use solo_rt.Core.Runtime.Requests.Rounds.{IsResponsive}
use solo_rt.Core.Runtime.Requests.Ends.{IsQuiet, HasSaid}
use solo_rt.Core.Runtime.Requests.Served.{add_request-complete_request}
use solo_rt.Cache.BlockHash.{Text}

-- An executor with a cache of its own.
abbrev pub plain : ModelExecutor Unit
plain = record {
  uses_paged_kv = false;
  supports_prefix_cache = false;
  tokenizer = some (λ messages thinking. 5 ∷ 6 ∷ 7 ∷ []);
  forward_prefill = λ batch q s. (ok tt, s);
  forward_decode = λ batch q s. (ok (one (sample 1)), s);
}

pub plain_responds : IsResponsive plain
unfolding normalize_samples
plain_responds = record {
  no_pages = refl;
  no_prefixes = refl;
  prefills = λ batch q s. (s, refl);
  decodes = λ batch q s. (one (sample 1), s, sample 1, [], refl, refl);
}

abbrev pub empty : RuntimeCore Unit
empty = record {
  scheduler = record { max_prefill_chunk_tokens = 2; sequences = []; order = [] };
  kv_cache = kv;
  prefix_cache = no_prefixes;
  executor = tt;
  session_manager = record { sessions = [] };
  metrics = new_metrics;
  vram_manager = default_budget;
  active_by_session = [];
}

abbrev request : ChatRequest
request = record {
  model_id = "m";
  messages = said ∷ [];
  max_new_tokens = 2;
  session_id = none;
  task_kind = foreground;
  temperature = record { digits = pos 1; places = 0 };
  top_p = none;
  top_k = none;
  repetition_penalty = none;
  max_repeated_token_run = none;
  enable_thinking = none;
}

abbrev pub turn : Turn Unit
turn = record { others = λ r. r; batch_id = "batch"; now = 3 }

pub no_sessions : IsKeyed empty.session_manager
unfolding IsKeyed Dict.lookup
no_sessions id session e = cc

pub quiet : IsQuiet "req_1" turn
unfolding IsQuiet
quiet q r h = h

add_request-complete_request_example :
    (s : Sequence) × (r1 : RuntimeCore Unit) × (text : Text) × (r' : RuntimeCore Unit)
    × (add_request (λ bytes. bytes) plain "sess_1" "req_1" 1 request empty ≡ (ok s, r1))
    × (complete_request
          (λ bytes. bytes)
          plain
          "req_1"
          (turn ∷ turn ∷ turn ∷ turn ∷ turn ∷ turn ∷ [])
          r1
        ≡ (text, ended, r'))
    × HasSaid "req_1" text 2 3 r'
unfolding tokenize_for_executor
add_request-complete_request_example =
    add_request-complete_request (λ bytes. bytes) plain "req_1" (λ bytes. bytes) "sess_1" 1 request
      (turn ∷ turn ∷ turn ∷ turn ∷ turn ∷ turn ∷ []) (5 ∷ 6 ∷ 7 ∷ []) empty plain_responds
      no_sessions tt (omega arith) (omega arith) refl (omega arith) (omega arith)
      (quiet, (quiet, (quiet, (quiet, (quiet, (quiet, tt))))))
