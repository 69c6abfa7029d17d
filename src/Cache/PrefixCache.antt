-- ===== src/Cache/PrefixCache.antt =====
-- src/solort/cache/prefix_cache.py: the block-hash prefix cache. Entries are Python objects that a
-- sequence may still hold after the cache has dropped them, so they live in a heap, and `entries`
-- maps a key to the address of its entry. The clock's
-- reading is the argument `now`.
pub mod Insert
pub mod Capacity
pub mod Match
pub mod Evict
pub mod Eviction
use solo_rt.Prelude.{
  ℕ, zero, suc, ◌+◌, ◌-◌, ◌*◌, ◌/◌, ◌%◌, ◌^◌, min, Bool, true, false, ◌&&◌, ◌||◌, not, Option, none,
  some, List, [], ◌∷◌, ◌++◌, map, if◌then◌else◌, ◌==◌, leb, ltb, length, take, drop, ℤ, pos, negsuc,
  Result, ok, err, value_error, overflow_error,
}
use solo_rt.Prelude.Errors.{◌>>=◌}
use solo_rt.Prelude.Sort.{sort_by}
use solo_rt.Cache.BlockHash.{Text, make_key}

pub record PrefixCacheEntry : Type 0 where
  pub key : Text
  pub token_ids : List ℕ
  pub pages : List ℕ
  pub token_count : ℕ
  pub ref_count : ℕ
  pub pinned : Bool
  pub last_access_ts : ℕ

-- The address of an entry object in the heap.
abbrev pub Address : Type 0
Address = ℕ

pub record PrefixMatch : Type 0 where
  pub matched_tokens : ℕ
  pub pages : List ℕ
  pub entry : Option Address

pub record PrefixCache : Type 0 where
  pub block_size : ℕ
  pub max_entries : ℕ
  pub heap : Address → PrefixCacheEntry
  pub next : Address
  pub entries : List (Text × Address)
  pub hits : ℕ
  pub misses : ℕ

-- What stands at an address before an entry is made there. Nothing reads it.
abbrev pub no_entry : PrefixCacheEntry
no_entry = record {
  key = [];
  token_ids = [];
  pages = [];
  token_count = 0;
  ref_count = 0;
  pinned = false;
  last_access_ts = 0;
}

-- `__init__`
unfoldable pub new_prefix_cache : ℤ → ℤ → Result PrefixCache
new_prefix_cache (pos (suc block_size)) (pos (suc max_entries)) = ok (record {
  block_size = suc block_size;
  max_entries = suc max_entries;
  heap = λ _. no_entry;
  next = 0;
  entries = [];
  hits = 0;
  misses = 0;
})
new_prefix_cache _ _ = err value_error

unfoldable pub same_list : List ℕ → List ℕ → Bool
same_list [] [] = true
same_list (x ∷ xs) (y ∷ ys) = (x == y) && same_list xs ys
same_list _ _ = false

-- `dict.values()`, `d[key] = v` and `d.pop(key, None)` on the keys' texts.
unfoldable pub addresses : List (Text × Address) → List Address
addresses [] = []
addresses ((key, address) ∷ rest) = address ∷ addresses rest

unfoldable pub put : Text → Address → List (Text × Address) → List (Text × Address)
put key address [] = (key, address) ∷ []
put key address ((k, a) ∷ rest) =
    if same_list k key then (k, address) ∷ rest else (k, a) ∷ put key address rest

unfoldable pub pop : Text → List (Text × Address) → List (Text × Address)
pop key [] = []
pop key ((k, a) ∷ rest) =
    let others = pop key rest in if same_list k key then others else (k, a) ∷ others

unfoldable pub update : Address → PrefixCacheEntry → PrefixCache → PrefixCache
update address e p = record p { heap = λ a. if a == address then e else p.heap a }

-- `best is None or entry.token_count > best.token_count`
abbrev pub is_longer : PrefixCache → Address → Option Address → Bool
is_longer p address none = true
is_longer p address (some best) = ltb (p.heap best).token_count (p.heap address).token_count

-- One round of the scan: `entry` replaces `best` if it is a prefix of the tokens and longer.
unfoldable pub better : PrefixCache → List ℕ → Address → Option Address → Option Address
better p tokens address best =
    let entry = p.heap address in
    if ltb (length tokens) entry.token_count
    then best
    else if same_list entry.token_ids (take entry.token_count tokens) && is_longer p address best
    then some address
    else best

unfoldable pub scan : PrefixCache → List ℕ → List Address → Option Address → Option Address
scan p tokens [] best = best
scan p tokens (address ∷ rest) best = scan p tokens rest (better p tokens address best)

found : ℕ → List ℕ → Option Address → PrefixCache → PrefixMatch × PrefixCache
found now tokens none p =
    (record { matched_tokens = 0; pages = []; entry = none }, record p { misses = p.misses + 1 })
found now tokens (some best) p =
    let entry = p.heap best in
    let touched : PrefixCacheEntry = record entry {
      ref_count = entry.ref_count + 1;
      last_access_ts = now;
    } in
    (
      record {
        matched_tokens = min entry.token_count (length tokens);
        pages = entry.pages;
        entry = some best;
      },
      update best touched (record p { hits = p.hits + 1 }),
    )

-- `PrefixCache.match`
unfoldable pub match_prefix : ℕ → List ℕ → PrefixCache → PrefixMatch × PrefixCache
unfolding found
match_prefix now tokens p = found now tokens (scan p tokens (addresses p.entries) none) p

unfoldable pub is_evictable : PrefixCache → Address → Bool
is_evictable p address = not (p.heap address).pinned && ((p.heap address).ref_count == 0)

pub select : (Address → Bool) → List Address → List Address
select test [] = []
select test (a ∷ rest) = let others = select test rest in if test a then a ∷ others else others

pub older : PrefixCache → Address → Address → Bool
older p a b = leb (p.heap a).last_access_ts (p.heap b).last_access_ts

pub remove_all : PrefixCache → List Address → List (Text × Address) → List (Text × Address)
remove_all p [] entries = entries
remove_all p (a ∷ rest) entries = remove_all p rest (pop (p.heap a).key entries)

-- The evictable entries, the longest unused first.
unfoldable pub eviction_order : PrefixCache → List Address
unfolding select older is_evictable
eviction_order p = sort_by (older p) (select (is_evictable p) (addresses p.entries))

unfoldable pub evict : ℤ → PrefixCache → List Address × PrefixCache
unfolding remove_all eviction_order
evict (negsuc n) p = ([], p)
evict (pos target_count) p =
    let removed = take target_count (eviction_order p) in
    (removed, record p { entries = remove_all p removed p.entries })

unfoldable pub evict_to_capacity : PrefixCache → PrefixCache
evict_to_capacity p =
    let overflow = length p.entries - p.max_entries in
    if overflow == 0 then p else (evict (pos overflow) p).1

pub added : Text → List ℕ → List ℕ → Bool → ℕ → PrefixCache → PrefixCache
added key token_ids pages pinned now p =
    update p.next
      (record {
        key = key;
        token_ids = token_ids;
        pages = pages;
        token_count = length token_ids;
        ref_count = 0;
        pinned = pinned;
        last_access_ts = now;
      })
      (record p { next = p.next + 1; entries = put key p.next p.entries })

unfoldable pub insert :
    (List ℕ → List ℕ) → ℕ → List ℕ → List ℕ → Bool → PrefixCache → Result Address × PrefixCache
unfolding added
insert blake2b now token_ids pages pinned p = elim (make_key blake2b p.block_size token_ids) [
  | err e ↦ (err e, p)
  | ok key ↦ (ok p.next, evict_to_capacity (added key token_ids pages pinned now p))
]

unfoldable pub release : Option Address → PrefixCache → PrefixCache
release none p = p
release (some address) p =
    let entry = p.heap address in
    update address (record entry { ref_count = entry.ref_count - 1 }) p

pub record PrefixCacheSnapshot : Type 0 where
  pub entries : ℕ
  pub pinned_entries : ℕ
  pub hits : ℕ
  pub misses : ℕ

unfoldable pub snapshot : PrefixCache → PrefixCacheSnapshot
unfolding select
snapshot p = record {
  entries = length p.entries;
  pinned_entries = length (select (λ a. (p.heap a).pinned) (addresses p.entries));
  hits = p.hits;
  misses = p.misses;
}
