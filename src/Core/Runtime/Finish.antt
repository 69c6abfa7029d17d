-- ===== src/Core/Runtime/Finish.antt =====
-- The end of a request: `_finish_sequence`, `_append_assistant_response`, `cancel_request`, and the
-- loop of `stream_request` that leads there.
pub mod Response
pub mod Stream
use solo_rt.Prelude.{
  ℕ, zero, suc, ◌+◌, Bool, true, false, ◌&&◌, not, Option, none, some, List, [], ◌∷◌, ◌++◌, String,
  str_eq, if◌then◌else◌, length, Result, ok, err, key_error,
}
use mathlib.Core.List.{flatten}
use solo_rt.Prelude.Exec.{Exec, pure, ◌>>=◌, ◌>>◌}
use solo_rt.Prelude.Dict
use solo_rt.Cache.BlockHash.{Text}
use solo_rt.Cache.PrefixCache
use solo_rt.Core.Sequence.{
  Sequence, SequenceStatus, waiting, running, finished, cancelled, is_terminal,
}
use solo_rt.Core.Batch.{Batch}
use solo_rt.Core.Session
use solo_rt.Core.Session.{Message, Session, SessionManager}
use solo_rt.Core.Scheduler
use solo_rt.Core.Scheduler.{InteractiveScheduler, build_next_batch}
use solo_rt.Core.Metrics
use solo_rt.Core.Runtime.{ModelExecutor, RuntimeCore}
use solo_rt.Core.Runtime.Execute.{write_sequence, execute_batch}

-- `role="assistant"`
abbrev pub assistant : Text
assistant = b'a' ∷ b's' ∷ b's' ∷ b'i' ∷ b's' ∷ b't' ∷ b'a' ∷ b'n' ∷ b't' ∷ []

-- `session.active_sequence_id = None` if it is this sequence's.
unfoldable pub clear_active : Sequence → SessionManager → SessionManager
clear_active q m = elim (Session.get q.session_id m) [
  | none ↦ m
  | some session ↦ elim session.active_sequence_id [
    | none ↦ m
    | some id ↦ if str_eq id q.seq_id then Session.set_active q.session_id none m else m
  ]
]

-- What one round of the loop of `stream_request` comes to.
pub data Round : Type 0 where
  over : Round
  slept : Round
  yields : List Text → Round

mine : String → Batch → Bool
mine seq_id batch = elim batch.seqs [ [] ↦ false | id ∷ _ ↦ str_eq id seq_id ]

module _ {E : Type 0} where
  unfoldable pub replied :
      Sequence → RuntimeCore E → Result SessionManager → Result (Unit {0}) × RuntimeCore E
  replied q r (err e) = (err e, r)
  replied q r (ok sessions) =
      let told : Sequence = record q {
        metadata = record q.metadata { response_appended = true };
      } in
      (ok tt, write_sequence told (record r { session_manager = sessions }))

  unfoldable pub reply_in :
      Sequence → RuntimeCore E → Option Session → Result (Unit {0}) × RuntimeCore E
  unfolding replied
  reply_in q r none = (ok tt, r)
  reply_in q r (some session) =
      let reply : Message = record { role = assistant; content = q.metadata.response_text } in
      replied q r (Session.append_messages q.session_id (reply ∷ []) r.session_manager)

  unfoldable pub reply_with : Sequence → RuntimeCore E → Text → Result (Unit {0}) × RuntimeCore E
  unfolding reply_in
  reply_with q r [] = (ok tt, r)
  reply_with q r (c ∷ cs) = reply_in q r (Session.get q.session_id r.session_manager)

  -- `_append_assistant_response`
  unfoldable pub append_assistant_response : Sequence → Exec (RuntimeCore E) (Unit {0})
  unfolding reply_with
  append_assistant_response q r =
      if q.metadata.response_appended then (ok tt, r) else reply_with q r q.metadata.response_text

  unfoldable pub report_if : SequenceStatus → ℕ → Sequence → Exec (RuntimeCore E) (Unit {0})
  unfolding append_assistant_response
  report_if finished now q r =
      append_assistant_response q
        (record r { metrics = Metrics.finish_request now q.seq_id r.metrics })
  report_if _ now q r = (ok tt, r)

  -- `if sequence.cache_handle is not None: self.prefix_cache.release(sequence.cache_handle)`
  unfoldable pub release_handle : Sequence → Exec (RuntimeCore E) (Unit {0})
  release_handle q r =
      (ok tt, record r { prefix_cache = PrefixCache.release q.cache_handle r.prefix_cache })

  -- The two session tables, which `_finish_sequence` writes first.
  unfoldable pub forget : Sequence → RuntimeCore E → RuntimeCore E
  unfolding clear_active
  forget q r = record r {
    session_manager = clear_active q r.session_manager;
    active_by_session = Dict.erase q.session_id r.active_by_session;
  }

  unfoldable pub finish_sequence : ℕ → Sequence → Exec (RuntimeCore E) (Unit {0})
  unfolding forget report_if release_handle
  finish_sequence now q r = (report_if q.status now q >> release_handle q) (forget q r)

  -- The request that `cancel_request` is about.
  unfoldable pub cancel_target : Option String → Option String → RuntimeCore E → Option String
  cancel_target (some id) session_id r = some id
  cancel_target none none r = none
  cancel_target none (some session_id) r = Dict.lookup session_id r.active_by_session

  unfoldable pub finish_if : ℕ → Option Sequence → Exec (RuntimeCore E) Bool
  unfolding finish_sequence
  finish_if now none r = (ok true, r)
  finish_if now (some q) r = (finish_sequence now q >> pure true) r

  -- The sequence object is fetched before it is cancelled and finished after: it is the same object,
  -- so it is read again.
  unfoldable pub after_cancel :
      ℕ → String → RuntimeCore E → Bool × InteractiveScheduler → Result Bool × RuntimeCore E
  unfolding finish_if
  after_cancel now seq_id r (true, scheduler) =
      finish_if now (Scheduler.get seq_id scheduler) (record r { scheduler = scheduler })
  after_cancel now seq_id r (false, scheduler) = (ok false, record r { scheduler = scheduler })

  unfoldable pub cancel_by_id : ℕ → String → Exec (RuntimeCore E) Bool
  unfolding after_cancel
  cancel_by_id now seq_id r = after_cancel now seq_id r (Scheduler.cancel now seq_id r.scheduler)

  unfoldable pub cancel_found : ℕ → Option String → Exec (RuntimeCore E) Bool
  unfolding cancel_by_id
  cancel_found now none r = (ok false, r)
  cancel_found now (some seq_id) r = cancel_by_id now seq_id r

  unfoldable pub cancel_request : ℕ → Option String → Option String → Exec (RuntimeCore E) Bool
  unfolding cancel_target cancel_found
  cancel_request now request_id session_id r =
      cancel_found now (cancel_target request_id session_id r) r

  -- A round that runs another sequence's batch drops the texts that it returns.
  run_round : String → Batch → Result (List Text) × RuntimeCore E → Result Round × RuntimeCore E
  unfolding mine
  run_round seq_id batch (err e, r) = (err e, r)
  run_round seq_id batch (ok texts, r) = (ok (if mine seq_id batch then yields texts else slept), r)

  batch_round :
      (List ℕ → List ℕ)
      → ModelExecutor E
      → ℕ
      → String
      → Result (Option Batch) × RuntimeCore E
      → Result Round × RuntimeCore E
  unfolding run_round
  batch_round blake2b x now seq_id (err e, r) = (err e, r)
  batch_round blake2b x now seq_id (ok none, r) = (ok slept, r)
  batch_round blake2b x now seq_id (ok (some batch), r) =
      run_round seq_id batch (execute_batch blake2b x now batch r)

  unfoldable pub round_of :
      (List ℕ → List ℕ)
      → ModelExecutor E
      → String
      → ℕ
      → String
      → Option Sequence
      → Exec (RuntimeCore E) Round
  unfolding batch_round
  round_of blake2b x batch_id now seq_id none r = (err key_error, r)
  round_of blake2b x batch_id now seq_id (some q) r =
      if is_terminal q
      then (ok over, r)
      else let (built, scheduler) = build_next_batch batch_id now none r.scheduler in
        batch_round blake2b x now seq_id (built, record r { scheduler = scheduler })

  -- One round of `stream_request`'s loop, for the request of an id.
  unfoldable pub stream_round :
      (List ℕ → List ℕ) → ModelExecutor E → String → ℕ → String → Exec (RuntimeCore E) Round
  unfolding round_of
  stream_round blake2b x batch_id now seq_id r =
      round_of blake2b x batch_id now seq_id (Scheduler.get seq_id r.scheduler) r
