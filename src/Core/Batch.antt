-- ===== src/Core/Batch.antt =====
-- src/solort/core/batch.py: what an executor is given. A batch holds a reference to its sequence,
-- and a reference to a sequence is its id in the scheduler's dict. The batch's id is an argument,
-- since `uuid4` draws it.
use solo_rt.Prelude.{
  ℕ, ◌+◌, ◌-◌, Option, none, some, List, [], ◌∷◌, String, length, get_elem?, range_from, Result, ok,
  err, index_error,
}
use solo_rt.Prelude.Errors.{◌>>=◌}
use solo_rt.Core.Sequence.{Sequence, BatchPhase, prefill, decode}

pub record Batch : Type 0 where
  pub batch_id : String
  pub phase : BatchPhase
  pub seqs : List String
  pub input_ids : List ℕ
  pub positions : List ℕ
  pub slot_mapping : Option (List ℕ)
  pub page_indptr : Option (List ℕ)
  pub page_indices : Option (List ℕ)
  pub last_page_len : Option (List ℕ)

-- `xs[-1]`
unfoldable pub last_of : List ℕ → Result ℕ
last_of xs = elim (get_elem? xs (length xs - 1)) [ none ↦ err index_error | some x ↦ ok x ]

unfoldable pub build_prefill : String → Sequence → List ℕ → Batch
build_prefill id s chunk_tokens = record {
  batch_id = id;
  phase = prefill;
  seqs = s.seq_id ∷ [];
  input_ids = chunk_tokens;
  positions = range_from (s.num_cached_tokens + s.num_scheduled_tokens) (length chunk_tokens);
  slot_mapping = none;
  page_indptr = none;
  page_indices = some s.block_table;
  last_page_len = none;
}

-- `sequence.output_ids[-1] if sequence.output_ids else sequence.input_ids[-1]`
unfoldable pub last_token : Sequence → Result ℕ
unfolding last_of
last_token s = elim s.output_ids [ [] ↦ last_of s.input_ids | token ∷ rest ↦ last_of s.output_ids ]

unfoldable pub decode_of : String → Sequence → ℕ → Batch
decode_of id s token = record {
  batch_id = id;
  phase = decode;
  seqs = s.seq_id ∷ [];
  input_ids = token ∷ [];
  positions = (s.num_prompt_tokens + length s.output_ids) ∷ [];
  slot_mapping = none;
  page_indptr = none;
  page_indices = some s.block_table;
  last_page_len = none;
}

unfoldable pub build_decode : String → Sequence → Result Batch
unfolding last_token
build_decode id s = last_token s >>= λ token. ok (decode_of id s token)
