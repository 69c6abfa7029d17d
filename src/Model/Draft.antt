-- ===== src/Model/Draft.antt =====
-- The draft model's cache and proposals, in src/solort/model/executor.py.
use solo_rt.Prelude.{
  ℕ, zero, suc, ◌+◌, ◌-◌, min, ◌||◌, not, none, some, List, [], ◌∷◌, ◌++◌, if◌then◌else◌, ltb, ◌==◌,
  length, drop, contains, get_elem?, Result, ok, err, index_error,
}
use solo_rt.Prelude.Errors.{◌>>=◌}
use solo_rt.Core.Sequence.{Sequence}
use solo_rt.Model.Serving.{Backend, ServingState}

-- `outputs.logits[:, -1, :]`
unfoldable pub last_logits : {L : Type 0} → List L → Result L
last_logits logits = elim (get_elem? logits (length logits - 1)) [
  | none ↦ err index_error
  | some l ↦ ok l
]

module _ {P D L : Type 0} (b : Backend P D L) where
  -- A serving state, and the number of tokens fed to the draft model so far.
  abbrev pub Drafting : Type 0
  Drafting = ServingState P D × ℕ

  -- `_crop_draft_cache`
  unfoldable pub crop_draft_cache : ℕ → ServingState P D → ServingState P D
  crop_draft_cache n state =
      let cleared : ServingState P D = record state {
        draft_past_key_values = none;
        draft_cached_len = 0;
      } in
      elim state.draft_past_key_values [
        | none ↦ record state { draft_cached_len = 0 }
        | some past ↦ if n == 0 then cleared else elim b.crop [
          | none ↦ cleared
          | some crop ↦ record state {
            draft_past_key_values = some (crop past n);
            draft_cached_len = min state.draft_cached_len n;
          }
        ]
      ]

  -- `_draft_forward`, and the logits after its last token.
  unfoldable pub draft_forward : List ℕ → Drafting → Result (L × Drafting)
  unfolding last_logits
  draft_forward token_ids (state, fed) =
      let (past, logits) = b.draft state.draft_past_key_values token_ids in
      last_logits logits >>= λ l. ok (
        l,
        (
          record state {
            draft_past_key_values = some past;
            draft_cached_len = state.draft_cached_len + length token_ids;
          },
          fed + length token_ids,
        ),
      )

  -- `_advance_draft_cache`: the stale tail is cut, then the tail that is not cached is fed, or the
  -- last committed token alone.
  unfoldable pub advance_draft_cache : List ℕ → Drafting → Result (L × Drafting)
  unfolding crop_draft_cache draft_forward
  advance_draft_cache committed (state, fed) =
      let n = length committed in
      let synced = if ltb n state.draft_cached_len then crop_draft_cache n state else state in
      elim (drop synced.draft_cached_len committed) [
        | [] ↦ draft_forward (drop (n - 1) committed) (crop_draft_cache (n - 1) synced, fed)
        | t ∷ tail ↦ draft_forward (t ∷ tail) (synced, fed)
      ]

  -- The proposals after the logits, at most n: a stop token is the last one, and no logits are
  -- computed after the last one.
  unfoldable pub propose : Sequence → ℕ → L → Drafting → Result (List ℕ × Drafting)
  unfolding draft_forward
  propose q zero logits w = ok ([], w)
  propose q (suc n) logits w =
      let token = b.argmax logits in
      let more =
        draft_forward (token ∷ []) w
        >>= (λ (l, v). propose q n l v >>= λ (tokens, u). ok (token ∷ tokens, u)) in
      if (token == b.eos_token_id) || contains q.stop_token_ids token || (n == 0)
      then ok (token ∷ [], w)
      else more

  -- `_draft_tokens`
  unfoldable pub draft_tokens : Sequence → ℕ → Drafting → Result (List ℕ × Drafting)
  unfolding advance_draft_cache propose crop_draft_cache
  draft_tokens q draft_count (state, fed) =
      let committed = q.input_ids ++ state.generated_token_ids in
      if not b.has_draft || (draft_count == 0) || (length committed == 0)
      then ok ([], (state, fed))
      else advance_draft_cache committed (state, fed) >>= λ (logits, v).
          propose q draft_count logits v >>= λ (tokens, (after, count)).
          ok (tokens, (crop_draft_cache (length committed) after, count))
