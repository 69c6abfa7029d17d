-- ===== src/Cache/KvCache.antt =====
-- src/solort/cache/kv_cache.py: the paged KV cache, its page arithmetic, block tables, slots and
-- append transactions. A Python block table is a list that the caller owns and the cache extends,
-- so the methods that take one are actions on the pair of the table and the cache.
pub mod Snapshot
pub mod Paging
pub mod Capacity
pub mod Slots
pub mod Transactions
pub mod Mirror
use solo_rt.Prelude.{
  ℕ, zero, suc, ◌+◌, ◌-◌, ◌*◌, ◌/◌, ◌%◌, Bool, true, false, Option, none, some, List, [], ◌∷◌, ◌++◌,
  map, String, str_eq, ◌||◌, not, leb, ltb, ◌==◌, if◌then◌else◌, length, get_or, take, drop, ℤ, pos,
  negsuc, Result, ok, err, value_error, runtime_error, index_error,
}
use solo_rt.Prelude.Errors.{◌>>=◌}
use solo_rt.Prelude.Exec.{Exec}
use solo_rt.Cache.PageAllocator
use solo_rt.Cache.PageAllocator.{PageAllocator, AllocatorSnapshot}

pub record KvCacheConfig : Type 0 where
  pub num_layers : ℕ
  pub num_pages : ℕ
  pub page_size : ℕ
  pub num_kv_heads : ℕ
  pub head_dim : ℕ
  pub dtype : String
  pub device : String
  pub layout : String
  pub allocate_tensors : Bool

abbrev pub default_config : KvCacheConfig
default_config = record {
  num_layers = 42;
  num_pages = 4096;
  page_size = 16;
  num_kv_heads = 8;
  head_dim = 256;
  dtype = "fp16";
  device = "cuda";
  layout = "NHD";
  allocate_tensors = false;
}

pub record KvCacheMetadata : Type 0 where
  pub page_indptr : List ℕ
  pub page_indices : List ℕ
  pub last_page_len : List ℕ
  pub slot_mapping : List ℕ

pub record KvCacheTransaction : Type 0 where
  pub pages : List ℕ
  pub original_block_len : ℕ

-- One token's K or V in one layer: the elements of its `[heads, head_dim]` slice, as bit patterns.
abbrev pub Row : Type 0
Row = List ℕ

-- The two views `k_cache` and `v_cache` of the tensor, by layer, page and offset in the page, and
-- what torch makes of a row that is copied into it, which it converts to the dtype of the tensor.
pub record Arena : Type 0 where
  pub convert : Row → Row
  pub k_cache : ℕ → ℕ → ℕ → Row
  pub v_cache : ℕ → ℕ → ℕ → Row

pub record PagedKvCache : Type 0 where
  pub config : KvCacheConfig
  pub allocator : PageAllocator
  pub tensors : Option Arena
  pub mirrored_tokens : ℕ
  pub mirror_skipped : ℕ

abbrev pub page_size : PagedKvCache → ℕ
page_size c = c.config.page_size

unfoldable pub has_tensors : PagedKvCache → Bool
has_tensors c = elim c.tensors [ none ↦ false | some arena ↦ true ]

-- `_torch_dtype`: the names of a dtype that torch has.
unfoldable pub torch_dtype : String → Result String
torch_dtype dtype =
    if str_eq dtype "fp16" || str_eq dtype "float16"
    then ok "float16"
    else if str_eq dtype "bf16" || str_eq dtype "bfloat16"
    then ok "bfloat16"
    else if str_eq dtype "fp32" || str_eq dtype "float32"
    then ok "float32"
    else err value_error

-- `allocate_tensors`. Whether torch can be imported, and what `torch.empty` holds, are arguments.
unfoldable pub allocate_tensors : Bool → Arena → PagedKvCache → Result PagedKvCache
unfolding torch_dtype
allocate_tensors torch arena c =
    if not torch
    then err runtime_error
    else torch_dtype c.config.dtype >>= λ _.
        if not (str_eq c.config.layout "NHD")
        then err value_error
        else ok (record c { tensors = some arena })

-- `__init__`
unfoldable pub new_cache : Bool → Arena → KvCacheConfig → Result PagedKvCache
unfolding allocate_tensors
new_cache torch arena config = do
  allocator ← PageAllocator.new_allocator (pos config.num_pages) (pos config.page_size)
  let c : PagedKvCache = record {
    config = config;
    allocator = allocator;
    tensors = none;
    mirrored_tokens = 0;
    mirror_skipped = 0;
  }
  if config.allocate_tensors then allocate_tensors torch arena c else ok c

unfoldable pub pages_required : PagedKvCache → ℕ → ℕ
pages_required c token_count =
    if token_count == 0 then 0 else (token_count + page_size c - 1) / page_size c

unfoldable pub last_page_len : PagedKvCache → ℕ → ℕ
last_page_len c token_count =
    if token_count == 0
    then 0
    else let remainder = token_count % page_size c in
      if remainder == 0 then page_size c else remainder

-- A block table and the cache that it points into.
abbrev pub Held : Type 0
Held = List ℕ × PagedKvCache

extend : Result (List ℕ) → PageAllocator → Held → Result (List ℕ) × Held
extend (ok pages) a (block_table, c) =
    (ok pages, (block_table ++ pages, record c { allocator = a }))
extend (err e) a (block_table, c) = (err e, (block_table, record c { allocator = a }))

unfoldable pub ensure_capacity : ℕ → Exec Held (List ℕ)
unfolding extend
ensure_capacity token_count (block_table, c) =
    let missing = pages_required c token_count - length block_table in
    if missing == 0
    then (ok [], (block_table, c))
    else let (r, a) = PageAllocator.alloc (pos missing) c.allocator in extend r a (block_table, c)

-- `slot_mapping`
unfoldable pub slot_mapping : PagedKvCache → List ℕ → List ℕ → Result (List ℕ)
slot_mapping c block_table [] = ok []
slot_mapping c block_table (position ∷ positions) =
    let rest = slot_mapping c block_table positions in
    let logical_page = position / page_size c in
    if leb (length block_table) logical_page then err index_error else (do
      slots ← rest
      ok ((get_or block_table logical_page 0 * page_size c + position % page_size c) ∷ slots))

-- `metadata_for`
unfoldable pub metadata_for : PagedKvCache → List ℕ → ℕ → Option (List ℕ) → Result KvCacheMetadata
metadata_for c block_table token_count positions = do
  let page_indices = take (pages_required c token_count) block_table
  slots ← slot_mapping c block_table (elim positions [ none ↦ [] | some ps ↦ ps ])
  ok (record {
    page_indptr = 0 ∷ length page_indices ∷ [];
    page_indices = page_indices;
    last_page_len = last_page_len c token_count ∷ [];
    slot_mapping = slots;
  })

transaction_of : ℕ → Result (List ℕ) × Held → Result KvCacheTransaction × Held
transaction_of original (ok _, (block_table, c)) = (
  ok (record { pages = drop original block_table; original_block_len = original }),
  (block_table, c),
)
transaction_of original (err e, held) = (err e, held)

unfoldable pub begin_append_transaction : ℕ → ℤ → Exec Held KvCacheTransaction
unfolding transaction_of
begin_append_transaction current_token_count (negsuc n) held = (err value_error, held)
begin_append_transaction current_token_count (pos append_token_count) held =
    transaction_of (length held.0) (ensure_capacity (current_token_count + append_token_count) held)

-- `commit_transaction` keeps the pages, so it does nothing.
unfoldable pub commit_transaction : KvCacheTransaction → Exec Held Unit
commit_transaction transaction held = (ok tt, held)

unfoldable pub rollback_transaction : KvCacheTransaction → Exec Held Unit
rollback_transaction transaction (block_table, c) =
    if length transaction.pages == 0
    then (ok tt, (block_table, c))
    else let (r, a) = PageAllocator.free (map pos transaction.pages) c.allocator in
      (r, (take transaction.original_block_len block_table, record c { allocator = a }))
