-- ===== src/Core/Runtime/Requests/Served.antt =====
-- A request from its entry to its reply.
use solo_rt.Prelude.{
  ℕ, ◌+◌, ◌≤◌, ◌<◌, ◌≡◌, refl, sym, ap, subst, ◌∙◌, false, List, [], ◌∷◌, ◌++◌, String, length,
  Result, ok, arith, str_eq_iff,
}
use mathlib.Core.List.{flatten}
use solo_rt.Prelude.Dict
use solo_rt.Prelude.Dict.{lookup-insert}
use solo_rt.Prelude.Sort.{All}
use solo_rt.Cache.BlockHash.{Text}
use solo_rt.Cache.PrefixCache.{PrefixMatch}
use solo_rt.Core.Sequence.{Sequence, is_terminal, post_init, remaining_prefill_tokens}
use solo_rt.Core.Session
use solo_rt.Core.Session.{Message, Session, SessionManager, IsKeyed, append_own}
use solo_rt.Core.Scheduler
use solo_rt.Core.Runtime.{
  ModelExecutor, RuntimeCore, ChatRequest, or_default, enter, add_request, sequence_for,
  metadata_of, tokenize_for_executor,
}
use solo_rt.Core.Runtime.Execute.Tokens.{IsBounded}
use solo_rt.Core.Runtime.Requests.{Turn, ended, stream_request, complete_request}
use solo_rt.Core.Runtime.Requests.Alone.{IsDone, IsServed, AreDone-insert}
use solo_rt.Core.Runtime.Requests.Rounds.{IsResponsive}
use solo_rt.Core.Runtime.Requests.Progress.{rounds_left}
use solo_rt.Core.Runtime.Requests.Ends.{IsQuiet, HasSaid, stream_request-Ends}

module _ {E : Type 0} (digest : List ℕ → List ℕ) (x : ModelExecutor E) (seq_id : String) where
  -- What the proof needs of the sequence that a request makes.
  IsNew : ChatRequest → Sequence → Type 0
  IsNew q s =
      (s.seq_id ≡ seq_id)
      × (s.output_ids ≡ [])
      × (s.max_new_tokens ≡ q.max_new_tokens)
      × (s.num_prompt_tokens ≡ length s.input_ids)
      × (is_terminal s ≡ false)
      × (s.metadata.response_text ≡ [])

  sequence_for-IsNew :
      (now : ℕ) (session_id : String) (q : ChatRequest) (context : List Message) (ids : List ℕ)
      (m : PrefixMatch)
      → IsNew q (sequence_for seq_id now session_id q context ids m)
  unfolding IsNew sequence_for post_init metadata_of is_terminal
  sequence_for-IsNew now session_id q context ids m = (refl, refl, refl, refl, refl, refl)

  new-IsServed :
      (q : ChatRequest) (s : Sequence) (w : Scheduler.InteractiveScheduler)
      → IsNew q s
      → 0 < q.max_new_tokens
      → 0 < length s.input_ids
      → 0 < w.max_prefill_chunk_tokens
      → All (IsDone seq_id w.sequences) w.order
      → IsServed seq_id s (Scheduler.add_sequence s w)
  unfolding IsNew IsBounded Scheduler.add_sequence
  new-IsServed q s w (keyed, none_yet, most, prompt, live, _) room tokens chunks done = record {
    held =
        ground
          (arith, keyed, lookup-insert s.seq_id seq_id s w.sequences, str_eq_iff s.seq_id seq_id);
    keyed = keyed;
    alone = record {
      before = w.order;
      behind = [];
      order_lem = ap (λ i. w.order ++ i ∷ []) keyed;
      done_before =
          subst (λ i. All (IsDone seq_id (Dict.insert i s w.sequences)) w.order) (sym keyed)
            (AreDone-insert seq_id w.order s w.sequences done);
      done_behind = tt;
    };
    chunks = chunks;
    prompt = prompt;
    some_prompt = tokens;
    bounded =
        (omega (arith, ap length none_yet), λ _. omega (arith, ap length none_yet, room, most));
  }

  -- The prompt that a request gets.
  abbrev pub prompt_of : String → ChatRequest → RuntimeCore E → Result (List ℕ)
  prompt_of fresh q r =
      let session = (Session.get_or_create fresh q.model_id q.session_id r.session_manager).0 in
      tokenize_for_executor digest x (session.messages ++ q.messages)
        (or_default q.enable_thinking false)

  entered :
      (fresh : String) (now : ℕ) (q : ChatRequest) (ids : List ℕ) (r : RuntimeCore E)
      → IsKeyed r.session_manager
      → prompt_of fresh q r ≡ ok ids
      → (s : Sequence) × (r1 : RuntimeCore E) × (add_request digest x fresh seq_id now q r
          ≡ (ok s, r1))
        × (r1.scheduler ≡ Scheduler.add_sequence s r.scheduler)
        × IsNew q s
        × (s.input_ids ≡ ids)
  unfolding add_request enter sequence_for post_init
  entered fresh now q ids r keyed tokenized =
      let (session, made) = Session.get_or_create fresh q.model_id q.session_id r.session_manager in
      let (n, runs) = append_own fresh q.model_id q.session_id q.messages r.session_manager keyed in
      let (s, r1) = enter x seq_id now q session ids n r in
      (
        s,
        r1,
        rw (add_request, runs, tokenized) refl,
        refl,
        sequence_for-IsNew now session.session_id q _ _ _,
        refl,
      )

  rounds_bound :
      (q : ChatRequest) (s : Sequence) (ids : List ℕ)
      → IsNew q s
      → s.input_ids ≡ ids
      → rounds_left s ≤ length ids + q.max_new_tokens
  unfolding IsNew rounds_left remaining_prefill_tokens
  rounds_bound q s ids (_, none_yet, most, prompt, _, _) e =
      omega (arith, ap length none_yet, most, prompt, ap length e)

  pub add_request-stream_request :
      (blake2b : List ℕ → List ℕ) (fresh : String) (now : ℕ) (q : ChatRequest)
      (turns : List (Turn E)) (ids : List ℕ) (r : RuntimeCore E)
      → IsResponsive x
      → IsKeyed r.session_manager
      → All (IsDone seq_id r.scheduler.sequences) r.scheduler.order
      → 0 < r.scheduler.max_prefill_chunk_tokens
      → 0 < q.max_new_tokens
      → prompt_of fresh q r ≡ ok ids
      → 0 < length ids
      → length ids + q.max_new_tokens < length turns
      → All (IsQuiet seq_id) turns
      → (s : Sequence) × (r1 : RuntimeCore E) × (texts : List Text) × (r' : RuntimeCore E)
        × (add_request digest x fresh seq_id now q r ≡ (ok s, r1))
        × (s.seq_id ≡ seq_id)
        × (stream_request blake2b x seq_id turns r1 ≡ (texts, ended, r'))
        × HasSaid seq_id (flatten texts) q.max_new_tokens (length ids) r'
  unfolding IsNew
  add_request-stream_request blake2b fresh now q turns ids r responds keyed done chunks room
        tokenized tokens enough quiet =
      let (s, r1, added, queued, new, same) = entered fresh now q ids r keyed tokenized in
      let served : IsServed seq_id s r1.scheduler = subst (IsServed seq_id s) (sym queued) (
        new-IsServed q s r.scheduler new room (subst (λ l. 0 < length l) (sym same) tokens) chunks
          done) in
      let (texts, r', ran, kept) =
        stream_request-Ends blake2b x responds seq_id turns s r1 served new.4
          (omega (arith, rounds_bound q s ids new same, enough)) quiet in
      (
        s,
        r1,
        texts,
        r',
        added,
        new.0,
        ran,
        subst (λ (k : ℕ). HasSaid seq_id (flatten texts) k (length ids) r') new.2
            (subst (λ (n : ℕ). HasSaid seq_id (flatten texts) s.max_new_tokens n r')
              (new.3 ∙ ap length same)
              (subst
                (λ t. HasSaid seq_id (t ++ flatten texts) s.max_new_tokens s.num_prompt_tokens r')
                new.5 kept)),
      )

  -- For an executor that always returns, has neither paged KV nor a prefix cache and gives at least
  -- one sample in a decode step, sessions filed under their own ids, a positive chunk limit, a
  -- scheduler in which every sequence has another id and is finished or cancelled, a request for at
  -- least one token whose prompt can be tokenised and is not empty, and more rounds than the prompt
  -- and max_new_tokens have tokens together: add_request returns a sequence, and if during the
  -- stream the other tasks neither touch the sequence nor leave another one that may run,
  -- complete_request ends without raising, its sequence has finished with at most max_new_tokens
  -- tokens and the prompt count of that prompt, and the text that it returns is exactly the
  -- sequence's response text.
  pub add_request-complete_request :
      (blake2b : List ℕ → List ℕ) (fresh : String) (now : ℕ) (q : ChatRequest)
      (turns : List (Turn E)) (ids : List ℕ) (r : RuntimeCore E)
      → IsResponsive x
      → IsKeyed r.session_manager
      → All (IsDone seq_id r.scheduler.sequences) r.scheduler.order
      → 0 < r.scheduler.max_prefill_chunk_tokens
      → 0 < q.max_new_tokens
      → prompt_of fresh q r ≡ ok ids
      → 0 < length ids
      → length ids + q.max_new_tokens < length turns
      → All (IsQuiet seq_id) turns
      → (s : Sequence) × (r1 : RuntimeCore E) × (text : Text) × (r' : RuntimeCore E) × (add_request
            digest x fresh seq_id now q r
          ≡ (ok s, r1))
        × (complete_request blake2b x seq_id turns r1 ≡ (text, ended, r'))
        × HasSaid seq_id text q.max_new_tokens (length ids) r'
  unfolding complete_request
  add_request-complete_request blake2b fresh now q turns ids r responds keyed done chunks room
        tokenized tokens enough quiet =
      let (s, r1, texts, r', added, _, ran, kept) =
        add_request-stream_request blake2b fresh now q turns ids r responds keyed done chunks room
          tokenized tokens enough quiet in
      (s, r1, flatten texts, r', added, rw ran refl, kept)
