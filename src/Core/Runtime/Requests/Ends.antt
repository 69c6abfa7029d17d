-- ===== src/Core/Runtime/Requests/Ends.antt =====
-- The stream of a sequence that is alone comes to its end.
use solo_rt.Prelude.{
  ℕ, ◌≤◌, ◌<◌, ◌≡◌, refl, sym, ap, subst, ◌∙◌, inl, inr, ◌⊎◌, true, false, some, List, [], ◌∷◌,
  ◌++◌, String, length, Result, ok, Bool-cases, Option-cases, List-cases, arith, append-nil,
  append_assoc, str_eq_iff,
}
use mathlib.Core.List.{flatten}
use solo_rt.Prelude.Exec.{>>=-ok}
use solo_rt.Prelude.Sort.{All}
use solo_rt.Cache.BlockHash.{Text}
use solo_rt.Core.Sequence.{Sequence, finished, is_terminal, is_final}
use solo_rt.Core.Session
use solo_rt.Core.Session.{Message, Session, SessionManager, found-append}
use solo_rt.Core.Scheduler
use solo_rt.Prelude.Dict.{lookup-insert}
use solo_rt.Cache.PrefixCache
use solo_rt.Core.Runtime.Execute.{write_sequence}
use solo_rt.Core.Metrics
use solo_rt.Core.Runtime.{ModelExecutor, RuntimeCore}
use solo_rt.Core.Runtime.Finish.{
  stream_round, round_of, over, yields, finish_sequence, report_if, release_handle, forget,
  append_assistant_response, reply_with, reply_in, replied, assistant,
}
use solo_rt.Core.Runtime.Execute.Tokens.{IsBounded}
use solo_rt.Core.Runtime.Requests.{
  Turn, ended, Streamed, ended_by, finish_stream, after_round, stream_request,
}
use solo_rt.Core.Runtime.Requests.Alone.{IsServed}
use solo_rt.Core.Runtime.Requests.Rounds.{IsResponsive}
use solo_rt.Core.Runtime.Requests.Progress.{Nearer, rounds_left, round-Goes}

flatten-append : (xs ys : List Text) → flatten (xs ++ ys) ≡ flatten xs ++ flatten ys
unfolding flatten
flatten-append [] ys = refl
flatten-append (x ∷ xs) ys =
    ap (λ l. x ++ l) (flatten-append xs ys) ∙ sym (append_assoc x (flatten xs) (flatten ys))

module _ {E : Type 0} where
  -- The request's sequence has finished, and has said this in so many tokens at most.
  pub record HasSaid (id : String) (text : Text) (most asked : ℕ) (r : RuntimeCore E) : Type 0 where
    pub last : Sequence
    pub held : Scheduler.get id r.scheduler ≡ some last
    pub done : last.status ≡ finished
    pub said : last.metadata.response_text ≡ text
    pub within : length last.output_ids ≤ most
    pub asks : last.num_prompt_tokens ≡ asked

  -- A call that returns, and leaves the finished sequence so.
  abbrev Returns : String → Text → ℕ → ℕ → Result (Unit {0}) × RuntimeCore E → Type 0
  Returns id text most asked out =
      (r' : RuntimeCore E) × (out ≡ (ok tt, r')) × HasSaid id text most asked r'

  module _ (id : String) (q : Sequence) (keyed : q.seq_id ≡ id) (done : q.status ≡ finished)
      (within : length q.output_ids ≤ q.max_new_tokens) where
    written :
        (sessions : SessionManager) (r : RuntimeCore E)
        → let told : Sequence = record q {
          metadata = record q.metadata { response_appended = true };
        } in
          HasSaid id q.metadata.response_text q.max_new_tokens q.num_prompt_tokens
            (write_sequence told (record r { session_manager = sessions }))
    unfolding Scheduler.get
    written sessions r =
        let told : Sequence = record q {
          metadata = record q.metadata { response_appended = true };
        } in
        record {
          last = told;
          held = ground (
            arith,
            keyed,
            lookup-insert q.seq_id id told r.scheduler.sequences,
            str_eq_iff q.seq_id id,
          );
          done = done;
          said = refl;
          within = within;
          asks = refl;
        }

    reply_in-Returns :
        (r : RuntimeCore E)
        → HasSaid id q.metadata.response_text q.max_new_tokens q.num_prompt_tokens r
        → Returns id q.metadata.response_text q.max_new_tokens q.num_prompt_tokens
            (reply_in q r (Session.get q.session_id r.session_manager))
    unfolding reply_in replied Session.get
    reply_in-Returns r h = elim (Option-cases (Session.get q.session_id r.session_manager)) [
      | inl e ↦ (r, rw e refl, h)
      | inr (session, e) ↦
          let reply : Message = record { role = assistant; content = q.metadata.response_text } in
          let (sessions, runs, _) =
            found-append q.session_id q.session_id session (reply ∷ []) r.session_manager e in
          (
            write_sequence (record q { metadata = record q.metadata { response_appended = true } })
                (record r { session_manager = sessions }),
            rw (e, runs) refl,
            written sessions r,
          )
    ]

    append-Returns :
        (r : RuntimeCore E)
        → HasSaid id q.metadata.response_text q.max_new_tokens q.num_prompt_tokens r
        → Returns id q.metadata.response_text q.max_new_tokens q.num_prompt_tokens
            (append_assistant_response q r)
    unfolding append_assistant_response reply_with
    append-Returns r h = elim (Bool-cases q.metadata.response_appended) [
      | inl b ↦ (r, rw b refl, h)
      | inr b ↦ elim (List-cases q.metadata.response_text) [
        | inl e ↦ (r, rw (append_assistant_response, b) (ap (reply_with q r) e), h)
        | inr (c, cs, e) ↦
            let (r', ran, kept) = reply_in-Returns r h in
            (r', rw (append_assistant_response, b) (ap (reply_with q r) e) ∙ ran, kept)
      ]
    ]

    finish-Returns :
        (now : ℕ) (r : RuntimeCore E)
        → HasSaid id q.metadata.response_text q.max_new_tokens q.num_prompt_tokens r
        → Returns id q.metadata.response_text q.max_new_tokens q.num_prompt_tokens
            (finish_sequence now q r)
    unfolding finish_sequence forget report_if release_handle Scheduler.get
    finish-Returns now r h =
        let left = forget q r in
        let told : RuntimeCore E = record left {
          metrics = Metrics.finish_request now q.seq_id left.metrics;
        } in
        let (r', ran, kept) = append-Returns told (record {
          last = h.last;
          held = h.held;
          done = h.done;
          said = h.said;
          within = h.within;
          asks = h.asks;
        }) in
        (
          record r' { prefix_cache = PrefixCache.release q.cache_handle r'.prefix_cache },
          >>=-ok (report_if q.status now q) (λ _. release_handle q) left
              (ap (λ status. report_if status now q left) done ∙ ran),
          record {
            last = kept.last;
            held = kept.held;
            done = kept.done;
            said = kept.said;
            within = kept.within;
            asks = kept.asks;
          },
        )

  -- The other tasks leave the sequence as it is, and no other one that may run.
  unfoldable pub IsQuiet : String → Turn E → Type 0
  IsQuiet id t =
      (q : Sequence) (r : RuntimeCore E)
      → IsServed id q r.scheduler
      → IsServed id q (t.others r).scheduler

  -- The stream ends, and has yielded what the response text has more than this.
  Ends : String → Text → ℕ → ℕ → Streamed E → Type 0
  Ends id before most asked out =
      (texts : List Text) × (r' : RuntimeCore E) × (out ≡ (texts, ended, r'))
      × HasSaid id (before ++ flatten texts) most asked r'

  module _ (blake2b : List ℕ → List ℕ) (x : ModelExecutor E) (responds : IsResponsive x)
      (id : String) where
    round_over :
        (batch_id : String) (now : ℕ) (q : Sequence) (r : RuntimeCore E)
        → Scheduler.get id r.scheduler ≡ some q
        → is_terminal q ≡ true
        → stream_round blake2b x batch_id now id r ≡ (ok over, r)
    unfolding stream_round round_of
    round_over batch_id now q r found t = rw (stream_round, found, t) refl

    stream_over :
        (turn : Turn E) (turns : List (Turn E)) (q : Sequence) (r : RuntimeCore E)
        → IsServed id q (turn.others r).scheduler
        → q.status ≡ finished
        → Ends id q.metadata.response_text q.max_new_tokens q.num_prompt_tokens
            (stream_request blake2b x id (turn ∷ turns) r)
    unfolding IsBounded Ends stream_request stream_round round_of after_round finish_stream
        Scheduler.get is_terminal flatten
    stream_over turn turns q r h done =
        let r1 = turn.others r in
        let here : HasSaid id q.metadata.response_text q.max_new_tokens q.num_prompt_tokens r1 =
          record {
            last = q;
            held = h.held;
            done = done;
            said = refl;
            within = h.bounded.0;
            asks = refl;
          } in
        let (r', ran, kept) = finish-Returns id q h.keyed done h.bounded.0 turn.now r1 here in
        (
          [],
          r',
          ap
                (λ p.
                  after_round p.0 p.1 (stream_request blake2b x id turns p.1)
                    (finish_stream turn.now (Scheduler.get id p.1.scheduler) p.1))
                (round_over turn.batch_id turn.now q r1 h.held (ap is_final done))
              ∙ ap (λ found. finish_stream turn.now found r1) h.held
              ∙ ap ended_by ran,
          subst (λ t. HasSaid id t q.max_new_tokens q.num_prompt_tokens r')
              (sym (append-nil q.metadata.response_text)) kept,
        )

    stream_goes :
        (turn : Turn E) (turns : List (Turn E)) (q last : Sequence) (texts : List Text)
        (r r1 : RuntimeCore E)
        → stream_round blake2b x turn.batch_id turn.now id (turn.others r) ≡ (ok (yields texts), r1)
        → last.metadata.response_text ≡ q.metadata.response_text ++ flatten texts
        → last.max_new_tokens ≡ q.max_new_tokens
        → last.num_prompt_tokens ≡ q.num_prompt_tokens
        → Ends id last.metadata.response_text last.max_new_tokens last.num_prompt_tokens
            (stream_request blake2b x id turns r1)
        → Ends id q.metadata.response_text q.max_new_tokens q.num_prompt_tokens
            (stream_request blake2b x id (turn ∷ turns) r)
    unfolding Ends stream_request after_round
    stream_goes turn turns q last texts r r1 ran said most asked (more, r', rest, kept) = (
      texts ++ more,
      r',
      rw (stream_request, ran, rest) refl,
      subst
          (λ (k : ℕ).
            HasSaid id (q.metadata.response_text ++ flatten (texts ++ more)) k q.num_prompt_tokens
              r')
          most
          (subst
            (λ (n : ℕ).
              HasSaid id (q.metadata.response_text ++ flatten (texts ++ more)) last.max_new_tokens n
                r')
            asked
            (subst (λ t. HasSaid id t last.max_new_tokens last.num_prompt_tokens r')
              (ap (λ t. t ++ flatten more) said
                ∙ append_assoc q.metadata.response_text (flatten texts) (flatten more)
                ∙ ap (λ t. q.metadata.response_text ++ t) (sym (flatten-append texts more)))
              kept)),
    )

    -- Enough rounds for the stream of this sequence.
    IsEnough : Sequence → List (Turn E) → Type 0
    IsEnough q turns =
        ((q.status ≡ finished) × (0 < length turns))
        ⊎ ((is_terminal q ≡ false) × (rounds_left q < length turns))

    IsEnough-behind :
        (q last : Sequence) (turn : Turn E) (turns : List (Turn E))
        → IsBounded q
        → is_terminal q ≡ false
        → rounds_left q < length (turn ∷ turns)
        → Nearer q last
        → IsEnough last turns
    unfolding IsEnough IsBounded rounds_left
    IsEnough-behind q last turn turns h live enough (inl e) =
        inl (e, omega (arith, h.1 live, enough))
    IsEnough-behind q last turn turns h live enough (inr (still, fewer)) =
        inr (still, omega (arith, enough, fewer))

    stream_Ends :
        (turns : List (Turn E)) (q : Sequence) (r : RuntimeCore E)
        → IsServed id q r.scheduler
        → All (IsQuiet id) turns
        → IsEnough q turns
        → Ends id q.metadata.response_text q.max_new_tokens q.num_prompt_tokens
            (stream_request blake2b x id turns r)
    unfolding IsEnough IsQuiet
    stream_Ends [] q r h quiet (inl (e, enough)) = elim enough [ ]
    stream_Ends [] q r h quiet (inr (e, enough)) = elim enough [ ]
    stream_Ends (turn ∷ turns) q r h quiet (inl (done, enough)) =
        stream_over turn turns q r (quiet.0 q r h) done
    stream_Ends (turn ∷ turns) q r h quiet (inr (live, enough)) =
        let (texts, last, r1, ran, served, nearer, said, most, asked) =
          round-Goes blake2b x responds id turn.batch_id turn.now q (turn.others r) (quiet.0 q r h)
            live in
        stream_goes turn turns q last texts r r1 ran said most asked (
          stream_Ends turns last r1 served quiet.1
            (IsEnough-behind q last turn turns h.bounded live enough nearer))

    -- stream_request, for a sequence that is alone.
    pub stream_request-Ends :
        (turns : List (Turn E)) (q : Sequence) (r : RuntimeCore E)
        → IsServed id q r.scheduler
        → is_terminal q ≡ false
        → rounds_left q < length turns
        → All (IsQuiet id) turns
        → (texts : List Text) × (r' : RuntimeCore E) × (stream_request blake2b x id turns r
            ≡ (texts, ended, r'))
          × HasSaid id
              (q.metadata.response_text ++ flatten texts)
              q.max_new_tokens
              q.num_prompt_tokens
              r'
    unfolding IsEnough Ends
    stream_request-Ends turns q r h live enough quiet =
        stream_Ends turns q r h quiet (inr (live, enough))
