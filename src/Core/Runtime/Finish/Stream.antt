-- ===== src/Core/Runtime/Finish/Stream.antt =====
-- What a cancelled or finished request leaves behind.
use solo_rt.Prelude.{
  ℕ, ◌≡◌, refl, ap, ◌∙◌, inl, inr, true, false, Option, none, some, List, [], ◌∷◌, String,
  str_eq_iff, Result, ok, err, arith, Bool-cases,
}
use solo_rt.Prelude.Exec.{pure, ◌>>◌, >>=-ok}
use solo_rt.Prelude.Dict
use solo_rt.Prelude.Dict.{lookup-insert, lookup-erase}
use solo_rt.Core.Sequence.{
  Sequence, SequenceStatus, waiting, running, finished, cancelled, is_terminal, mark_cancelled,
}
use solo_rt.Core.Batch.{Batch}
use solo_rt.Core.Scheduler
use solo_rt.Core.Scheduler.{sequence_of, write, build_next_batch, InteractiveScheduler}
use solo_rt.Core.Runtime.{RuntimeCore, ModelExecutor}
use solo_rt.Core.Runtime.Execute.{execute_batch, run_found, run_live, run_phase}
use solo_rt.Core.Session
use solo_rt.Core.Session.{SessionManager, Session}
use solo_rt.Cache.KvCache.{PagedKvCache}
use solo_rt.Cache.BlockHash.{Text}
use solo_rt.Core.Metrics
use solo_rt.Prelude.Dict.{Dict}
use solo_rt.Core.Runtime.Finish.{
  finish_sequence, report_if, release_handle, forget, reply_with, reply_in, replied, finish_if,
  append_assistant_response, cancel_request, cancel_by_id, cancel_target, stream_round, round_of,
  cancel_found, after_cancel, over, batch_round, run_round, mine, yields,
}

-- What the end of a request reports to the metrics and the session without writing.
abbrev pub Kept : Type 0 → Type 0
Kept E = PagedKvCache × E × Dict String

module _ {E : Type 0} where
  abbrev pub kept : RuntimeCore E → Kept E
  kept r = (r.kv_cache, r.executor, r.active_by_session)

  kept-replied :
      (q : Sequence) (r : RuntimeCore E) (m : Result SessionManager)
      → kept (replied q r m).1 ≡ kept r
  unfolding replied
  kept-replied q r (err e) = refl
  kept-replied q r (ok m) = refl

  kept-reply_in :
      (q : Sequence) (r : RuntimeCore E) (o : Option Session) → kept (reply_in q r o).1 ≡ kept r
  unfolding reply_in
  kept-reply_in q r none = refl
  kept-reply_in q r (some s) =
      kept-replied q r (Session.append_messages q.session_id _ r.session_manager)

  kept-reply_with :
      (q : Sequence) (r : RuntimeCore E) (t : Text) → kept (reply_with q r t).1 ≡ kept r
  unfolding reply_with
  kept-reply_with q r [] = refl
  kept-reply_with q r (c ∷ cs) = kept-reply_in q r (Session.get q.session_id r.session_manager)

  kept-append_assistant_response :
      (q : Sequence) (r : RuntimeCore E) → kept (append_assistant_response q r).1 ≡ kept r
  unfolding append_assistant_response
  kept-append_assistant_response q r = elim (Bool-cases q.metadata.response_appended) [
    | inl b ↦ rw (append_assistant_response, b) refl
    | inr b ↦ rw (append_assistant_response, b) (kept-reply_with q r q.metadata.response_text)
  ]

  kept-report_if :
      (status : SequenceStatus) (now : ℕ) (q : Sequence) (r : RuntimeCore E)
      → kept (report_if status now q r).1 ≡ kept r
  unfolding report_if
  kept-report_if waiting now q r = refl
  kept-report_if running now q r = refl
  kept-report_if cancelled now q r = refl
  kept-report_if finished now q r =
      kept-append_assistant_response q
        (record r { metrics = Metrics.finish_request now q.seq_id r.metrics })

  kept-release_handle :
      (q : Sequence) (x : Result (Unit {0}) × RuntimeCore E)
      → kept (((λ _. x) >> release_handle q) x.1).1 ≡ kept x.1
  unfolding release_handle
  kept-release_handle q (ok _, r) = refl
  kept-release_handle q (err e, r) = refl

  -- Finishing a sequence, whatever its status, leaves the KV cache as it was, so that it frees none
  -- of the pages, and afterwards a cancellation by the session id alone returns false and changes
  -- nothing, whichever request was active.
  pub finish_keeps_pages :
      (now now' : ℕ) (q : Sequence) (r : RuntimeCore E)
      → let r' = (finish_sequence now q r).1 in
        (r'.kv_cache ≡ r.kv_cache)
        × (cancel_request now' none (some q.session_id) r' ≡ (ok false, r'))
  unfolding finish_sequence forget cancel_request cancel_target
  finish_keeps_pages now now' q r =
      let f = forget q r in
      let r' = (finish_sequence now q r).1 in
      let same : kept r' ≡ kept f =
        kept-release_handle q (report_if q.status now q f) ∙ kept-report_if q.status now q f in
      let gone : Dict.lookup q.session_id r'.active_by_session ≡ none =
        ap (λ (k : Kept E). Dict.lookup q.session_id k.2) same
        ∙ ground (
          arith,
          lookup-erase q.session_id q.session_id r.active_by_session,
          str_eq_iff q.session_id q.session_id,
        ) in
      (ap (λ (k : Kept E). k.0) same, ap (λ o. cancel_found now' o r') gone)

  finish_cancelled :
      (now : ℕ) (q : Sequence) (r : RuntimeCore E)
      → q.status ≡ cancelled
      → finish_sequence now q r ≡ release_handle q (forget q r)
  unfolding finish_sequence report_if
  finish_cancelled now q r e =
      ap (λ status. (report_if status now q >> release_handle q) (forget q r)) e

-- Cancelling by its id a request that is in the scheduler under that id and neither finished nor
-- cancelled returns true; a batch already built for it then runs nothing and changes nothing, the
-- next round of its stream ends it, and a second cancellation returns false.
pub cancel_stops :
    {E : Type 0} (blake2b : List ℕ → List ℕ) (x : ModelExecutor E) (now : ℕ) (id batch_id : String)
    (session_id : Option String) (q : Sequence) (batch : Batch) (r : RuntimeCore E)
    → Scheduler.get id r.scheduler ≡ some q
    → q.seq_id ≡ id
    → is_terminal q ≡ false
    → batch.seqs ≡ id ∷ []
    → (r' : RuntimeCore E) × (cancel_request now (some id) session_id r ≡ (ok true, r'))
      × (execute_batch blake2b x now batch r' ≡ (ok [], r'))
      × (stream_round blake2b x batch_id now id r' ≡ (ok over, r'))
      × (cancel_request now (some id) session_id r' ≡ (ok false, r'))
unfolding cancel_request cancel_target cancel_found cancel_by_id after_cancel finish_if
    Scheduler.get forget release_handle stream_round round_of execute_batch run_found run_live
    mark_cancelled is_terminal Scheduler.cancel Dict.insert sequence_of
cancel_stops blake2b x now id batch_id session_id q batch r found keyed live mine =
    let p = mark_cancelled now q in
    let r1 = record r { scheduler = write p r.scheduler } in
    let look : Dict.lookup id (write p r.scheduler).sequences ≡ some p =
      ground
        (arith, lookup-insert q.seq_id id p r.scheduler.sequences, str_eq_iff q.seq_id id, keyed) in
    let stopped : Scheduler.cancel now id r.scheduler ≡ (true, write p r.scheduler) =
      rw (Scheduler.cancel, found, live) refl in
    let r' = (release_handle p (forget p r1)).1 in
    let refused : Scheduler.cancel now id r'.scheduler ≡ (false, r'.scheduler) =
      rw (Scheduler.cancel, look) refl in
    let here : sequence_of batch r'.scheduler ≡ ok p = rw (sequence_of, mine, look) refl in
    (
      r',
      ap (after_cancel now id r) stopped
          ∙ ap (λ o. finish_if now o r1) look
          ∙ >>=-ok (finish_sequence now p) (λ _. pure true) r1 (finish_cancelled now p r1 refl),
      ap (λ s. run_found blake2b x now batch s r') here,
      ap (λ o. round_of blake2b x batch_id now id o r') look,
      ap (after_cancel now id r') refused,
    )

-- A round that runs the sequence's own batch.
pub round_runs :
    {E : Type 0} (blake2b : List ℕ → List ℕ) (x : ModelExecutor E) (batch_id : String) (now : ℕ)
    (id : String) (q : Sequence) (batch : Batch) (built : InteractiveScheduler) (texts : List Text)
    (r r' : RuntimeCore E)
    → Scheduler.get id r.scheduler ≡ some q
    → is_terminal q ≡ false
    → build_next_batch batch_id now none r.scheduler ≡ (ok (some batch), built)
    → batch.seqs ≡ id ∷ []
    → execute_batch blake2b x now batch (record r { scheduler = built }) ≡ (ok texts, r')
    → stream_round blake2b x batch_id now id r ≡ (ok (yields texts), r')
unfolding stream_round round_of batch_round run_round mine
round_runs blake2b x batch_id now id q batch built texts r r' found live selected own ran =
    rw (stream_round, found, live, selected, ran, own) (ground (arith, str_eq_iff id id))

pub execute_lem :
    {E : Type 0} (blake2b : List ℕ → List ℕ) (x : ModelExecutor E) (now : ℕ) (batch : Batch)
    (q : Sequence) (r : RuntimeCore E)
    → sequence_of batch r.scheduler ≡ ok q
    → q.status ≡ running
    → execute_batch blake2b x now batch r ≡ run_phase blake2b x now batch q batch.phase r
unfolding execute_batch run_found run_live
execute_lem blake2b x now batch q r found runs =
    ap (λ f. run_found blake2b x now batch f r) found
    ∙ ap (λ status. run_live blake2b x now batch q status r) runs
