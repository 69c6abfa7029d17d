-- ===== src/Model/Executor.antt =====
-- The steps of `TransformersTextExecutor` in src/solort/model/executor.py: the KV write plan, the
-- prefill of a chunk, and a decode step, greedy speculation included. The attention mask, all ones,
-- and the mirror that the attention backend writes during a forward pass belong to the model's call.
use solo_rt.Prelude.{
  ℕ, ◌+◌, ◌-◌, min, max, Bool, true, false, ◌||◌, not, Option, none, some, List, [], ◌∷◌, map,
  if◌then◌else◌, ltb, leb, ◌==◌, length, take, range_from, get_or, pos, Result, ok, err,
}
use solo_rt.Prelude.Exec.{Exec, pure, ◌>>=◌, ◌>>◌}
use solo_rt.Cache.KvCache.{
  Held, KvCacheTransaction, ensure_capacity, slot_mapping, begin_append_transaction,
  commit_transaction, rollback_transaction,
}
use solo_rt.Core.Sequence.{Sequence}
use solo_rt.Core.Runtime.{SampleResult, Decoded, one, many}
use solo_rt.Model.Serving.{
  Backend, ServingState, sample_token, append_token_result, is_nonpositive, is_one,
}
use solo_rt.Model.Draft.{last_logits, draft_tokens}
use solo_rt.Model.Round.{accepted_count, emit_round}

-- `_KVWritePlan`
pub record KvWritePlan : Type 0 where
  pub slot_mapping : List ℕ
  pub transaction : Option KvCacheTransaction

-- The slots of the positions, read through the table as it now is.
plan_slots : List ℕ → Option KvCacheTransaction → Exec Held KvWritePlan
plan_slots positions transaction (block_table, c) = elim (slot_mapping c block_table positions) [
  | err e ↦ (err e, (block_table, c))
  | ok slots ↦ (ok (record { slot_mapping = slots; transaction = transaction }), (block_table, c))
]

-- `current_token_count or start_position + 1`
abbrev pub current_or : Option ℕ → ℕ → ℕ
current_or none d = d
current_or (some n) d = if n == 0 then d else n

-- `_kv_write_plan`
unfoldable pub kv_write_plan : Bool → ℕ → ℕ → Option ℕ → ℕ → Exec Held KvWritePlan
unfolding plan_slots
kv_write_plan attached start_position token_count current provisional =
    let positions = range_from start_position token_count in
    if not attached || (token_count == 0)
    then pure (record { slot_mapping = []; transaction = none })
    else if ltb 0 provisional
    then (begin_append_transaction (current_or current (start_position + 1)) (pos provisional)
        >>= λ t. plan_slots positions (some t))
    else (ensure_capacity (start_position + token_count) >>= λ _. plan_slots positions none)

-- What a step works on: the state, the block table with the KV cache, and the counters.
pub record Work (P D : Type 0) : Type 0 where
  pub state : ServingState P D
  pub held : Held
  pub proposed_tokens : ℕ
  pub accepted_tokens : ℕ
  pub rejected_tokens : ℕ
  pub draft_forward_tokens : ℕ

module _ {P D L : Type 0} (b : Backend P D L) where
  on_held : {A : Type 0} → Exec Held A → Exec (Work P D) A
  on_held run w = let (r, held) = run w.held in (r, record w { held = held })

  of_result : {A : Type 0} → Result A → Exec (Work P D) A
  of_result r w = (r, w)

  modify_state : (ServingState P D → ServingState P D) → Exec (Work P D) (Unit {0})
  modify_state f w = (ok tt, record w { state = f w.state })

  -- `generated_token_ids[-1]`
  unfoldable pub last_generated : ServingState P D → ℕ
  last_generated state = get_or state.generated_token_ids (length state.generated_token_ids - 1) 0

  -- `_decode_next`
  unfoldable pub decode_next : Sequence → Exec (Work P D) (Unit {0})
  unfolding on_held of_result modify_state last_generated sample_token last_logits kv_write_plan
  decode_next q w =
      let state = w.state in
      let n = state.prompt_token_count + length state.generated_token_ids in
      let (past, logits) = b.forward state.past_key_values (last_generated state ∷ []) in
      if length state.generated_token_ids == 0
      then (
        ok tt,
        record w {
          state = record state { finished = true; pending_token_id = some b.eos_token_id };
        },
      )
      else ((on_held (kv_write_plan b.kv_attached (n - 1) 1 none 0) >>= λ _.
            of_result (last_logits logits) >>= λ l. modify_state λ s. record s {
              past_key_values = some past;
              pending_token_id = some (sample_token b l q);
            })
          w)

  -- The pending token, 0 if there is none, is appended.
  unfoldable pub append_pending : Sequence → Exec (Work P D) SampleResult
  append_pending q w =
      let token : ℕ = elim w.state.pending_token_id [ none ↦ 0 | some t ↦ t ] in
      let (result, state) =
        append_token_result b q (record w.state { pending_token_id = none }) token in
      (ok result, record w { state = state })

  -- `_target_forward_from_state`: the past, the logits and the transaction of the fed tokens.
  unfoldable pub target_forward :
      List ℕ → Bool → Exec (Work P D) (P × List L × Option KvCacheTransaction)
  unfolding on_held kv_write_plan
  target_forward token_ids provisional w =
      let n = w.state.prompt_token_count + length w.state.generated_token_ids in
      let (past, logits) = b.forward w.state.past_key_values token_ids in
      ((on_held (
            kv_write_plan b.kv_attached (n - 1) (length token_ids) (some n)
              (if provisional then length token_ids - 1 else 0))
          >>= λ plan. pure (past, logits, plan.transaction))
        w)

  settle : Bool → Option KvCacheTransaction → Exec Held (Unit {0})
  settle true none = pure tt
  settle false none = pure tt
  settle true (some t) = commit_transaction t
  settle false (some t) = rollback_transaction t

  -- The past after the round: the validated one, or, after a rejection, the old one with the
  -- accepted proposals fed again.
  replay : Bool → P → Option P → List ℕ → Exec (Work P D) (Unit {0})
  unfolding target_forward modify_state
  replay true past original tokens = modify_state λ s. record s { past_key_values = some past }
  replay false past original tokens = do
    modify_state λ s. record s { past_key_values = original }
    outputs ← target_forward tokens false
    modify_state λ s. record s { past_key_values = some outputs.0 }

  count_round : ℕ → ℕ → Exec (Work P D) (Unit {0})
  count_round proposed accepted w = (
    ok tt,
    record w {
      proposed_tokens = w.proposed_tokens + proposed;
      accepted_tokens = w.accepted_tokens + accepted;
      rejected_tokens = w.rejected_tokens + (proposed - accepted);
    },
  )

  emit : Sequence → List ℕ → List ℕ → L → Exec (Work P D) (List SampleResult)
  emit q drafts targets last w =
      let (results, state) = emit_round b q drafts targets (sample_token b last q) w.state in
      (ok results, record w { state = state })

  -- The caches are settled, and the tokens of the round are appended.
  emit_settled :
      Sequence
      → List ℕ
      → List ℕ
      → Option P
      → List ℕ
      → P
      → Option KvCacheTransaction
      → L
      → Exec (Work P D) (List SampleResult)
  unfolding replay settle emit on_held accepted_count
  emit_settled q drafts targets original tokens past transaction last =
      let all = accepted_count drafts targets == length drafts in
      on_held (settle all transaction) >>= λ _.
      replay all past original tokens >>= λ _. emit q drafts targets last

  -- What follows the validation of the proposals.
  conclude_round :
      Sequence
      → List ℕ
      → Option P
      → ℕ
      → P × List L × Option KvCacheTransaction
      → Exec (Work P D) (List SampleResult)
  unfolding emit_settled count_round of_result accepted_count last_logits
  conclude_round q drafts original previous (past, logits, transaction) =
      let targets = take (length drafts) (map b.argmax logits) in
      let accepted = accepted_count drafts targets in
      count_round (length drafts) accepted >>= λ _.
      of_result (last_logits logits)
      >>= emit_settled q drafts targets original (previous ∷ take accepted drafts) past transaction

  -- The round on proposals that are not empty.
  unfoldable pub validate_round : Sequence → List ℕ → Exec (Work P D) (List SampleResult)
  unfolding target_forward conclude_round last_generated
  validate_round q drafts w =
      let previous = last_generated w.state in
      (target_forward (previous ∷ drafts) true
          >>= conclude_round q drafts w.state.past_key_values previous)
        w

  -- `_draft_tokens` on the state and its counter.
  propose_drafts : Sequence → ℕ → Exec (Work P D) (List ℕ)
  propose_drafts q draft_count w =
      elim (draft_tokens b q draft_count (w.state, w.draft_forward_tokens)) [
        | err e ↦ (err e, w)
        | ok (tokens, (state, fed)) ↦
            (ok tokens, record w { state = state; draft_forward_tokens = fed })
      ]

  abbrev round_or_next : Sequence → List ℕ → Exec (Work P D) (List SampleResult)
  round_or_next q [] = (decode_next q >> append_pending q) >>= λ result. pure (result ∷ [])
  round_or_next q (d ∷ drafts) = validate_round q (d ∷ drafts)

  -- `_speculative_decode`
  unfoldable pub speculative_decode : Sequence → Exec (Work P D) (List SampleResult)
  unfolding propose_drafts decode_next append_pending validate_round
  speculative_decode q w =
      let remaining = q.max_new_tokens - length w.state.generated_token_ids in
      (propose_drafts q (min b.speculative_tokens remaining) >>= λ drafts. round_or_next q drafts) w

  -- `_speculative_enabled`
  unfoldable pub speculative_enabled : Sequence → ServingState P D → Bool
  unfolding is_one is_nonpositive
  speculative_enabled q state =
      if not b.has_draft || (b.speculative_tokens == 0)
      then false
      else if length state.generated_token_ids == 0
      then false
      else if leb (q.max_new_tokens - length state.generated_token_ids) 1
      then false
      else if not (is_one q.metadata.repetition_penalty)
      then false
      else is_nonpositive q.metadata.temperature

  -- `forward_decode`, on the state that `_ensure_state` gives.
  unfoldable pub forward_decode : Sequence → Exec (Work P D) Decoded
  unfolding speculative_decode speculative_enabled decode_next append_pending
  forward_decode q w =
      if w.state.finished
      then (ok (one (record { token_id = b.eos_token_id; text = []; is_last = true })), w)
      else elim w.state.pending_token_id [
        | some t ↦ (append_pending q >>= λ result. pure (one result)) w
        | none ↦
            if speculative_enabled q w.state
            then ((speculative_decode q >>= λ results. pure (many results)) w)
            else (((decode_next q >> append_pending q) >>= λ result. pure (one result)) w)
      ]

  -- `forward_prefill`, on the state that `_ensure_state` gives.
  unfoldable pub forward_prefill : Sequence → List ℕ → Exec (Work P D) (Unit {0})
  unfolding sample_token last_logits
  forward_prefill q input_ids w =
      let (past, logits) = b.forward w.state.past_key_values input_ids in
      let filled = w.state.prefilled_token_count + length input_ids in
      let state : ServingState P D = record w.state {
        past_key_values = some past;
        prefilled_token_count = filled;
        prompt_token_count = max w.state.prompt_token_count filled;
      } in
      if length input_ids == 0
      then (ok tt, w)
      else if leb q.num_prompt_tokens filled
      then elim (last_logits logits) [
        | err e ↦ (err e, record w { state = state })
        | ok l ↦ (
          ok tt,
          record w { state = record state { pending_token_id = some (sample_token b l q) } },
        )
      ]
      else (ok tt, record w { state = state })
