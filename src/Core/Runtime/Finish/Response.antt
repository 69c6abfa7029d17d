-- ===== src/Core/Runtime/Finish/Response.antt =====
-- The reply enters the session once.
use solo_rt.Prelude.{
  ℕ, ◌≡◌, refl, ap, ◌∙◌, true, false, some, [], ◌∷◌, ◌++◌, String, str_eq, str_eq_iff,
  if◌then◌else◌, ok, arith,
}
use solo_rt.Prelude.Dict.{lookup-insert}
use solo_rt.Cache.BlockHash.{Text}
use solo_rt.Core.Sequence.{Sequence}
use solo_rt.Core.Session
use solo_rt.Core.Session.{Message, Session, found-append, transcript}
use solo_rt.Core.Scheduler
use solo_rt.Core.Runtime.{RuntimeCore}
use solo_rt.Core.Runtime.Execute.{write_sequence}
use solo_rt.Core.Runtime.Finish.{
  append_assistant_response, reply_with, reply_in, replied, assistant,
}

-- For a sequence with a non-empty response that is not yet in its session, and a session that is
-- there, the response is appended to the session as one message of the assistant, the transcripts
-- of other sessions stay, and with the sequence as the scheduler then holds it a second call
-- changes nothing.
pub reply_once :
    {E : Type 0} (q : Sequence) (r : RuntimeCore E) (c : ℕ) (cs : Text) (session : Session)
    (other : String)
    → q.metadata.response_appended ≡ false
    → q.metadata.response_text ≡ c ∷ cs
    → Session.get q.session_id r.session_manager ≡ some session
    → let reply : Message = record { role = assistant; content = q.metadata.response_text } in
      (told : Sequence) × (r' : RuntimeCore E) × (append_assistant_response q r ≡ (ok tt, r'))
      × (Scheduler.get q.seq_id r'.scheduler ≡ some told)
      × (transcript other r'.session_manager ≡ (
          if str_eq q.session_id other
          then transcript q.session_id r.session_manager ++ reply ∷ []
          else transcript other r.session_manager))
      × (append_assistant_response told r' ≡ (ok tt, r'))
unfolding append_assistant_response reply_with reply_in replied Session.get Scheduler.get
reply_once q r c cs session other new text found =
    let reply : Message = record { role = assistant; content = q.metadata.response_text } in
    let (sessions, runs, read) =
      found-append q.session_id other session (reply ∷ []) r.session_manager found in
    let told : Sequence = record q { metadata = record q.metadata { response_appended = true } } in
    (
      told,
      write_sequence told (record r { session_manager = sessions }),
      rw (append_assistant_response, new)
          (ap (reply_with q r) text ∙ ap (reply_in q r) found ∙ ap (replied q r) runs),
      ground (
        arith,
        lookup-insert q.seq_id q.seq_id told r.scheduler.sequences,
        str_eq_iff q.seq_id q.seq_id,
      ),
      read,
      refl,
    )
