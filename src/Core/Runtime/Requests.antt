-- ===== src/Core/Runtime/Requests.antt =====
-- `stream_request` and `complete_request` of src/solort/core/runtime.py as whole loops. Each round
-- begins after an `await`: what the other tasks did since is a function on the runtime.
pub mod Alone
pub mod Rounds
pub mod Steps
pub mod Progress
pub mod Ends
pub mod Served
pub mod Examples
use solo_rt.Prelude.{
  ℕ, Option, none, some, List, [], ◌∷◌, ◌++◌, String, Error, Result, ok, err, key_error,
}
use mathlib.Core.List.{flatten}
use solo_rt.Cache.BlockHash.{Text}
use solo_rt.Core.Sequence.{Sequence}
use solo_rt.Core.Scheduler
use solo_rt.Core.Runtime.{RuntimeCore, ModelExecutor}
use solo_rt.Core.Runtime.Finish.{Round, over, slept, yields, stream_round, finish_sequence}

-- A round of the loop: the other tasks' effect, the id for a batch and the clock.
pub record Turn (E : Type 0) : Type 0 where
  pub others : RuntimeCore E → RuntimeCore E
  pub batch_id : String
  pub now : ℕ

-- How a stream ends; one that is given no more rounds goes on.
pub data Ending : Type 0 where
  ended : Ending
  raised : Error → Ending
  going_on : Ending

-- The texts that a stream yields, how it ends, and the runtime then.
abbrev pub Streamed : Type 0 → Type 0
Streamed E = List Text × Ending × RuntimeCore E

module _ {E : Type 0} where
  abbrev ended_by : Result (Unit {0}) × RuntimeCore E → Streamed E
  ended_by (err e, r) = ([], raised e, r)
  ended_by (ok _, r) = ([], ended, r)

  -- `self._finish_sequence(sequence)`, behind the loop.
  unfoldable pub finish_stream : ℕ → Option Sequence → RuntimeCore E → Streamed E
  unfolding finish_sequence
  finish_stream now none r = ([], raised key_error, r)
  finish_stream now (some q) r = ended_by (finish_sequence now q r)

  abbrev pub yield_before : List Text → Streamed E → Streamed E
  yield_before texts (more, ending, r) = (texts ++ more, ending, r)

  -- What follows a round; the streams are those of the next round and of the end.
  unfoldable pub after_round : Result Round → RuntimeCore E → Streamed E → Streamed E → Streamed E
  after_round (err e) r next end = ([], raised e, r)
  after_round (ok over) r next end = end
  after_round (ok slept) r next end = next
  after_round (ok (yields texts)) r next end = yield_before texts next

  unfoldable pub stream_request :
      (List ℕ → List ℕ) → ModelExecutor E → String → List (Turn E) → RuntimeCore E → Streamed E
  unfolding stream_round finish_stream after_round
  stream_request blake2b x seq_id [] r = ([], going_on, r)
  stream_request blake2b x seq_id (turn ∷ turns) r =
      let (round, after) = stream_round blake2b x turn.batch_id turn.now seq_id (turn.others r) in
      after_round round after (stream_request blake2b x seq_id turns after)
        (finish_stream turn.now (Scheduler.get seq_id after.scheduler) after)

  -- `"".join(chunks)`
  unfoldable pub complete_request :
      (List ℕ → List ℕ)
      → ModelExecutor E
      → String
      → List (Turn E)
      → RuntimeCore E
      → Text × Ending × RuntimeCore E
  unfolding stream_request
  complete_request blake2b x seq_id turns r =
      let (texts, ending, last) = stream_request blake2b x seq_id turns r in
      (flatten texts, ending, last)
