-- ===== src/Cache/Examples.antt =====
-- Tests on a cache of four pages of two tokens, and on a small prefix cache.
use solo_rt.Prelude.{
  ℕ, ◌+◌, ◌-◌, ◌/◌, ◌%◌, ◌≤◌, ◌<◌, ◌≡◌, refl, true, some, List, [], ◌∷◌, ◌++◌, map, count, length,
  take, drop, pos, ok, arith,
}
use solo_rt.Prelude.Sort.{All}
use solo_rt.Cache.PageAllocator.{PageAllocator, new_allocator, alloc, incref, decref, free}
use solo_rt.Cache.PageAllocator.Invariant.{IsValid, new_allocator-IsValid}
use solo_rt.Cache.PageAllocator.Alloc.{AllocOutcome, alloc-outcome}
use solo_rt.Cache.PageAllocator.Release.{holders, CountOutcome, incref-outcome, decref-outcome}
use solo_rt.Cache.PageAllocator.History.{
  perform_all, perform_all-IsValid, alloc-IsValid, free-alloc, Call,
}
use solo_rt.Cache.KvCache.{
  PagedKvCache, Arena, default_config, pages_required, ensure_capacity, slot_mapping,
}
use solo_rt.Cache.KvCache.Capacity.{IsCache, EnsureOutcome, ensure_capacity-outcome}
use solo_rt.Cache.KvCache.Slots.{IsDistinct, slot_mapping-IsDistinct}
use solo_rt.Cache.KvCache.Transactions.{Restores, reserve_and_roll_back, roll_back-reserve}
use solo_rt.Cache.KvCache.Mirror.{KvTensor, store_layer_tokens, gather_layer_tokens}
use solo_rt.Cache.KvCache.Mirror.RoundTrip.{gather-store}
use solo_rt.Cache.BlockHash.{
  Text, blocks, blocks_from, block_bytes, hash_blocks, make_hash_chain, decimal, decimal_from,
  join_chain, to_bytes, from_bytes, make_key,
}
use solo_rt.Cache.PrefixCache.{
  same_list, PrefixCache, no_entry, match_prefix, insert, evict, addresses,
}
use solo_rt.Cache.PrefixCache.Match.{IsLongest, match_prefix-IsLongest}
use solo_rt.Cache.PrefixCache.Eviction.{IsEviction, evict-IsEviction}
use solo_rt.Cache.PrefixCache.Insert.{IsWellFormed}
use solo_rt.Cache.PrefixCache.Capacity.{
  insert-IsWellFormed, match-insert, AllPinned, insert-AllPinned,
}

abbrev four : PageAllocator
four = record {
  num_pages = 4;
  page_size = 2;
  free_pages = 0 ∷ 1 ∷ 2 ∷ 3 ∷ [];
  used_pages = [];
  ref_count = 0 ∷ 0 ∷ 0 ∷ 0 ∷ [];
}

four_is_new : new_allocator (pos 4) (pos 2) ≡ ok four
unfolding new_allocator
four_is_new = refl

four-IsValid : IsValid four
four-IsValid = new_allocator-IsValid (pos 4) (pos 2) four four_is_new

-- Page 0 is taken.
abbrev one_used : PageAllocator
one_used = (alloc (pos 1) four).1

one_used-IsValid : IsValid one_used
one_used-IsValid = alloc-IsValid (pos 1) four four-IsValid

alloc-outcome_example : AllocOutcome (pos 5) four (alloc (pos 5) four)
alloc-outcome_example = alloc-outcome (pos 5) four four-IsValid

perform_all-IsValid_example : IsValid (
    perform_all
      (Call.alloc (pos 3)
        ∷ Call.decref (pos 1)
        ∷ Call.decref (pos 1)
        ∷ Call.free (pos 2 ∷ pos 9 ∷ [])
        ∷ [])
      four)
perform_all-IsValid_example =
    perform_all-IsValid (pos 4) (pos 2) four
      (Call.alloc (pos 3)
        ∷ Call.decref (pos 1)
        ∷ Call.decref (pos 1)
        ∷ Call.free (pos 2 ∷ pos 9 ∷ [])
        ∷ [])
      four_is_new

free-alloc_example :
    (d : PageAllocator) × (free (map pos (take 2 four.free_pages)) (alloc (pos 2) four).1
      ≡ (ok tt, d))
    × (d.free_pages ≡ drop 2 four.free_pages ++ take 2 four.free_pages)
    × ((q : ℕ) → holders d q ≡ holders four q)
    × IsValid d
    × (d.page_size ≡ four.page_size)
free-alloc_example = free-alloc 2 four four-IsValid (omega arith)

incref-outcome_example : CountOutcome (pos 0) (λ n. n + 1) one_used (incref (pos 0) one_used)
incref-outcome_example = incref-outcome (pos 0) one_used one_used-IsValid

decref-outcome_example : CountOutcome (pos 0) (λ n. n - 1) one_used (decref (pos 0) one_used)
decref-outcome_example = decref-outcome (pos 0) one_used one_used-IsValid

abbrev empty_arena : Arena
empty_arena = record { convert = map (λ w. w % 4); k_cache = λ _ _ _. []; v_cache = λ _ _ _. [] }

abbrev cache : PagedKvCache
cache = record {
  config = record default_config {
    num_layers = 2;
    num_pages = 4;
    page_size = 2;
    num_kv_heads = 1;
    head_dim = 1;
  };
  allocator = four;
  tensors = some empty_arena;
  mirrored_tokens = 0;
  mirror_skipped = 0;
}

cache-IsCache : IsCache cache
cache-IsCache = record { pages = four-IsValid; sized = refl }

ensure_capacity-outcome_example : EnsureOutcome 5 [] cache (ensure_capacity 5 ([], cache))
ensure_capacity-outcome_example = ensure_capacity-outcome 5 [] cache cache-IsCache

three_distinct : (x : ℕ) → count x (3 ∷ 1 ∷ 2 ∷ []) ≤ 1
three_distinct x = ground arith

one_two_distinct : (x : ℕ) → count x (1 ∷ 2 ∷ []) ≤ 1
one_two_distinct x = ground arith

slot_mapping-IsDistinct_example :
    (slots : List ℕ) × (slot_mapping cache (3 ∷ 1 ∷ 2 ∷ []) (1 ∷ 2 ∷ []) ≡ ok slots)
    × (length slots ≡ length {A = ℕ} (1 ∷ 2 ∷ []))
    × IsDistinct slots
    × All (λ x. 0 < count (x / 2) (3 ∷ 1 ∷ 2 ∷ [])) slots
slot_mapping-IsDistinct_example =
    slot_mapping-IsDistinct cache (3 ∷ 1 ∷ 2 ∷ []) (omega arith) three_distinct (1 ∷ 2 ∷ [])
      one_two_distinct (omega arith, (omega arith, tt))

room_for_five : pages_required cache 5 - 0 ≤ 4
unfolding pages_required
room_for_five = omega arith

roll_back-reserve_example :
    (e : PagedKvCache) × (reserve_and_roll_back 2 (pos 3) ([], cache) ≡ (ok tt, ([], e)))
    × Restores cache e
roll_back-reserve_example = roll_back-reserve 2 3 [] cache cache-IsCache room_for_five

abbrev slots : List ℕ
slots = 5 ∷ 2 ∷ []

abbrev rows : KvTensor
rows = record { batch = 1; heads = 1; head_dim = 1; rows = (7 ∷ []) ∷ (8 ∷ []) ∷ [] }

two_distinct : (x : ℕ) → count x (5 ∷ 2 ∷ []) ≤ 1
two_distinct x = ground arith

gather-store_example :
    (d : PagedKvCache) × (store_layer_tokens (some (pos 1)) (5 ∷ 2 ∷ []) rows rows cache
      ≡ (ok tt, d))
    × (gather_layer_tokens (pos 1) (5 ∷ 2 ∷ []) d
        ≡ ok (map empty_arena.convert rows.rows, map empty_arena.convert rows.rows))
    × (d.mirrored_tokens ≡ cache.mirrored_tokens + length slots)
    × (d.mirror_skipped ≡ cache.mirror_skipped)
    × (d.allocator ≡ cache.allocator)
gather-store_example =
    gather-store 1 (5 ∷ 2 ∷ []) rows rows cache empty_arena refl
      (record {
        key_batch = refl;
        value_batch = refl;
        key_heads = refl;
        value_heads = refl;
        key_dim = refl;
        value_dim = refl;
        key_rows = refl;
        value_rows = refl;
      })
      (omega arith) (omega arith) (omega arith) two_distinct (omega arith, (omega arith, tt))

abbrev empty_prefixes : PrefixCache
empty_prefixes = record {
  block_size = 2;
  max_entries = 1;
  heap = λ _. no_entry;
  next = 0;
  entries = [];
  hits = 0;
  misses = 0;
}

empty_prefixes-IsWellFormed : IsWellFormed empty_prefixes
empty_prefixes-IsWellFormed = record { filed = tt }

-- A digest of one byte: the sum of the bytes, below 256.
abbrev digest : List ℕ → List ℕ
digest [] = 0 ∷ []
digest (b ∷ bytes) = b ∷ []

abbrev prompt : List ℕ
prompt = 5 ∷ 6 ∷ 7 ∷ []

abbrev small_key : Text
small_key = b'5' ∷ b':' ∷ b'7' ∷ []

small_key_made : make_key digest 2 (5 ∷ 6 ∷ 7 ∷ []) ≡ ok small_key
unfolding make_key make_hash_chain blocks blocks_from hash_blocks block_bytes to_bytes from_bytes
    join_chain decimal decimal_from
small_key_made = refl

match_prefix-IsLongest_example :
    IsLongest 9
      (5 ∷ 6 ∷ [])
      empty_prefixes
      (match_prefix 9 (5 ∷ 6 ∷ []) empty_prefixes).0
      (match_prefix 9 (5 ∷ 6 ∷ []) empty_prefixes).1
match_prefix-IsLongest_example = match_prefix-IsLongest 9 (5 ∷ 6 ∷ []) empty_prefixes

-- Two entries, the second of which is older.
abbrev two_prefixes : PrefixCache
two_prefixes = record empty_prefixes {
  max_entries = 2;
  heap = λ a. record no_entry { key = a ∷ []; last_access_ts = 9 - a };
  next = 2;
  entries = (0 ∷ [], 0) ∷ (1 ∷ [], 1) ∷ [];
}

evict-IsEviction_example :
    IsEviction 1 two_prefixes (evict (pos 1) two_prefixes).0 (evict (pos 1) two_prefixes).1
unfolding same_list
evict-IsEviction_example = evict-IsEviction 1 two_prefixes (refl, (refl, tt), (refl, tt, tt))

insert-IsWellFormed_example :
    IsWellFormed (insert digest 9 (5 ∷ 6 ∷ 7 ∷ []) (0 ∷ 1 ∷ []) true empty_prefixes).1
insert-IsWellFormed_example =
    insert-IsWellFormed digest 9 (5 ∷ 6 ∷ 7 ∷ []) (0 ∷ 1 ∷ []) true empty_prefixes
      empty_prefixes-IsWellFormed

match-insert_example :
    length prompt
    ≤ (match_prefix 10
        ((5 ∷ 6 ∷ 7 ∷ []) ++ 8 ∷ [])
        (insert digest 9 (5 ∷ 6 ∷ 7 ∷ []) (0 ∷ 1 ∷ []) true empty_prefixes).1).0.matched_tokens
match-insert_example =
    match-insert digest 9 10 (5 ∷ 6 ∷ 7 ∷ []) (8 ∷ []) (0 ∷ 1 ∷ []) empty_prefixes small_key
      empty_prefixes-IsWellFormed small_key_made

insert-AllPinned_example :
    let q = (insert digest 9 (5 ∷ 6 ∷ 7 ∷ []) (0 ∷ 1 ∷ []) true empty_prefixes).1 in
    (length q.entries ≡ length empty_prefixes.entries + 1) × AllPinned q (addresses q.entries)
unfolding addresses
insert-AllPinned_example =
    insert-AllPinned digest 9 (5 ∷ 6 ∷ 7 ∷ []) (0 ∷ 1 ∷ []) empty_prefixes small_key tt
      small_key_made tt

-- Nine tenths.
abbrev most : ℕ → ℕ
most n = n - n / 10
