-- ===== src/Core/Runtime/Execute/Pages.antt =====
-- The page metadata that a batch gets before its forward pass.
use solo_rt.Prelude.{
  ℕ, ◌+◌, ◌≤◌, ◌≡◌, refl, ap, ◌∙◌, true, some, List, [], ◌∷◌, ◌++◌, map, str_eq_iff, length, take,
  range_from, ok, arith,
}
use solo_rt.Prelude.Exec.{>>=-ok}
use solo_rt.Prelude.Dict
use solo_rt.Prelude.Dict.{lookup-insert}
use solo_rt.Cache.KvCache.{
  PagedKvCache, KvCacheMetadata, metadata_for, pages_required, last_page_len,
}
use solo_rt.Cache.KvCache.Capacity.{
  IsCache, missing_pages, ensure_runs, ensure-Extends, gained, allocated,
}
use solo_rt.Cache.KvCache.Slots.{slot, metadata_for_lem}
use solo_rt.Core.Sequence.{Sequence}
use solo_rt.Core.Batch.{Batch}
use solo_rt.Core.Scheduler.{sequence_of}
use solo_rt.Core.Runtime.{RuntimeCore, ModelExecutor}
use solo_rt.Core.Runtime.Execute.{
  prepare, reserve, attach_kv_metadata, with_metadata, reserved, attached, attach_to,
  write_sequence,
}

-- What a batch holds of n tokens on the pages of a table, for the positions a, …, a + k - 1.
unfoldable pub pages_of : PagedKvCache → List ℕ → ℕ → ℕ → ℕ → KvCacheMetadata
pages_of c table n a k = record {
  page_indptr = 0 ∷ pages_required c n ∷ [];
  page_indices = take (pages_required c n) table;
  last_page_len = last_page_len c n ∷ [];
  slot_mapping = map (slot c table) (range_from a k);
}

module _ {E : Type 0} (x : ModelExecutor E) (paged : x.uses_paged_kv ≡ true) (batch : Batch)
    (q : Sequence) (r : RuntimeCore E) (mine : batch.seqs ≡ q.seq_id ∷ []) (n a k : ℕ)
    (positions : batch.positions ≡ range_from a k) (inside : a + k ≤ n) (v : IsCache r.kv_cache)
    (enough : missing_pages n q.block_table r.kv_cache
      ≤ length r.kv_cache.allocator.free_pages) where
  abbrev pub table_after : List ℕ
  table_after = q.block_table ++ gained n q.block_table r.kv_cache v

  abbrev pub kv_after : PagedKvCache
  kv_after = record r.kv_cache { allocator = allocated n q.block_table r.kv_cache v }

  abbrev pub runtime_after : RuntimeCore E
  runtime_after =
      write_sequence (record q { block_table = table_after }) (record r { kv_cache = kv_after })

  reserve_lem : reserve n q r ≡ (ok tt, runtime_after)
  unfolding reserve reserved
  reserve_lem = ap (reserved q r) (ensure_runs n q.block_table r.kv_cache v enough)

  sequence_lem :
      sequence_of batch runtime_after.scheduler ≡ ok (record q { block_table = table_after })
  unfolding sequence_of
  sequence_lem =
      let extended : Sequence = record q { block_table = table_after } in
      let found : Dict.lookup q.seq_id (Dict.insert q.seq_id extended r.scheduler.sequences)
          ≡ some extended =
        ground (
          arith,
          lookup-insert q.seq_id q.seq_id extended r.scheduler.sequences,
          str_eq_iff q.seq_id q.seq_id,
        ) in
      rw (sequence_of, mine, found) refl

  attach_lem :
      attach_kv_metadata n batch runtime_after
      ≡ (ok (with_metadata batch (pages_of kv_after table_after n a k)), runtime_after)
  unfolding attach_kv_metadata attach_to attached pages_of
  attach_lem =
      let fits = (ensure-Extends n q.block_table r.kv_cache v enough).fits in
      ap (attach_to n batch runtime_after) sequence_lem
      ∙ ap (λ ps. attached batch runtime_after (metadata_for kv_after table_after n (some ps)))
          positions
      ∙ ap (attached batch runtime_after) (
          metadata_for_lem kv_after table_after n a k (omega (arith, v.sized, v.pages.paged)) fits
            inside)

  -- For an executor that uses paged KV, a batch of the sequence whose positions are a run below n,
  -- and a valid KV cache whose queue holds the missing pages, the preparation of the batch for n
  -- tokens does not raise: the sequence keeps its table and gains the missing pages, and the batch
  -- is told the pages that n tokens fill, the fill of the last one and the slot of each position.
  pub prepare_lem :
      prepare x n batch q r
      ≡ (ok (with_metadata batch (pages_of kv_after table_after n a k)), runtime_after)
  unfolding prepare
  prepare_lem =
      rw (prepare, paged)
        (>>=-ok (reserve n q) (λ _. attach_kv_metadata n batch) r reserve_lem ∙ attach_lem)
