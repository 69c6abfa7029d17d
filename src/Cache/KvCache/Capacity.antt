-- ===== src/Cache/KvCache/Capacity.antt =====
-- `ensure_capacity`: what a block table gains, and which pages.
use solo_rt.Prelude.{
  ℕ, ◌-◌, ◌*◌, ◌≤◌, ◌<◌, ◌≡◌, refl, ap, sym, ◌∙◌, append-nil, ==_iff, List, [], ◌++◌, if◌then◌else◌,
  ◌==◌, leb, ltb, length, count, take, drop, arith, pos, Result, ok, err, page_allocation_error,
  Bool-cases, inl, inr, leb→le, length-append, length-take,
}
use solo_rt.Cache.PageAllocator
use solo_rt.Cache.PageAllocator.{PageAllocator}
use solo_rt.Cache.PageAllocator.Alloc.{Takes, alloc-Takes, alloc_short}
use solo_rt.Cache.PageAllocator.Release.{holders}
use solo_rt.Cache.PageAllocator.Invariant.{IsValid}
use solo_rt.Cache.KvCache.{Held, PagedKvCache, page_size, pages_required, ensure_capacity, extend}
use solo_rt.Cache.KvCache.Paging.{pages_required_bounds}

-- The allocator is valid and agrees with the configuration.
pub record IsCache (c : PagedKvCache) : Type 0 where
  pub pages : IsValid c.allocator
  pub sized : c.allocator.page_size ≡ page_size c

-- What stays in the cache when pages are allocated or freed.
pub record SameData (c d : PagedKvCache) : Type 0 where
  pub config : d.config ≡ c.config
  pub tensors : d.tensors ≡ c.tensors
  pub mirrored : d.mirrored_tokens ≡ c.mirrored_tokens
  pub skipped : d.mirror_skipped ≡ c.mirror_skipped

abbrev pub missing_pages : ℕ → List ℕ → PagedKvCache → ℕ
missing_pages n table c = pages_required c n - length table

mul_le : (n q l s : ℕ) → n ≤ q * s → q ≤ l → n ≤ l * s
mul_le n q l s h k = grind arith

-- What `ensure_capacity n` did when it returned: the table keeps its pages and gains exactly the
-- missing ones, which are the oldest free pages and had no holder; no other count changed.
pub record Extends (n : ℕ) (table : List ℕ) (c : PagedKvCache) (table' : List ℕ) (d : PagedKvCache)
    : Type 0 where
  pub table_is : table' ≡ table ++ take (missing_pages n table c) c.allocator.free_pages
  pub fits : n ≤ length table' * page_size d
  pub cache : IsCache d
  pub same : SameData c d
  pub fresh :
      (p : ℕ)
      → holders d.allocator p ≡ (
          if ltb 0 (count p (take (missing_pages n table c) c.allocator.free_pages))
          then 1
          else holders c.allocator p)
  pub queue : d.allocator.free_pages ≡ drop (missing_pages n table c) c.allocator.free_pages

module _ (n : ℕ) (table : List ℕ) (c : PagedKvCache) (v : IsCache c) where
  ensure_alloc :
      ensure_capacity n (table, c)
      ≡ extend
          (PageAllocator.alloc (pos (missing_pages n table c)) c.allocator).0
          (PageAllocator.alloc (pos (missing_pages n table c)) c.allocator).1
          (table, c)
  unfolding ensure_capacity PageAllocator.alloc
  ensure_alloc = elim (Bool-cases (missing_pages n table c == 0)) [
    | inl z ↦
        let e : missing_pages n table c ≡ 0 = (==_iff _ _).0 z in
        rw e (ap (λ l. (ok [], (l, c))) (sym (append-nil table)))
    | inr more ↦ rw more
  ]

  abbrev pub gained : List ℕ
  gained = take (missing_pages n table c) c.allocator.free_pages

  abbrev pub allocated : PageAllocator
  allocated = (PageAllocator.alloc (pos (missing_pages n table c)) c.allocator).1

  module _ (enough : missing_pages n table c ≤ length c.allocator.free_pages) where
    gained_lem :
        Takes
          (missing_pages n table c)
          c.allocator
          (PageAllocator.alloc (pos (missing_pages n table c)) c.allocator).0
          allocated
    gained_lem = alloc-Takes (missing_pages n table c) c.allocator v.pages enough

    pub ensure_runs :
        ensure_capacity n (table, c)
        ≡ (ok gained, (table ++ gained, record c { allocator = allocated }))
    unfolding extend
    ensure_runs = rw (ensure_alloc, gained_lem.pages)

    gained_fits : n ≤ length (table ++ gained) * page_size c
    gained_fits =
        let len : length gained ≡ missing_pages n table c =
          omega (arith, length-take (missing_pages n table c) c.allocator.free_pages) in
        let more : pages_required c n ≤ length (table ++ gained) =
          omega (arith, length-append table gained) in
        let (lo, hi) = pages_required_bounds c n (omega (arith, v.sized, v.pages.paged)) in
        mul_le n (pages_required c n) (length (table ++ gained)) (page_size c) lo more

    pub ensure-Extends : Extends n table c (table ++ gained) (record c { allocator = allocated })
    ensure-Extends = record {
      table_is = refl;
      fits = gained_fits;
      cache = record { pages = gained_lem.valid; sized = gained_lem.same_size ∙ v.sized };
      same = record { config = refl; tensors = refl; mirrored = refl; skipped = refl };
      fresh = gained_lem.refs;
      queue = gained_lem.rest;
    }

  pub ensure_short :
      length c.allocator.free_pages < missing_pages n table c
      → ensure_capacity n (table, c) ≡ (err page_allocation_error, (table, c))
  unfolding extend
  ensure_short short = rw (ensure_alloc, alloc_short (missing_pages n table c) c.allocator short)

unfoldable pub EnsureOutcome : ℕ → List ℕ → PagedKvCache → Result (List ℕ) × Held → Type 0
EnsureOutcome n table c out =
    if leb (missing_pages n table c) (length c.allocator.free_pages)
    then (out.0 ≡ ok (take (missing_pages n table c) c.allocator.free_pages))
      × Extends n table c out.1.0 out.1.1
    else out ≡ (err page_allocation_error, (table, c))

-- On a valid cache, if the queue holds the missing pages, ensure_capacity n returns them and
-- appends them to the table, which then has room for n tokens; the pages had no holder, and no
-- other page changed. Otherwise it raises PageAllocationError, and neither the table nor the cache
-- has changed.
pub ensure_capacity-outcome :
    (n : ℕ) (table : List ℕ) (c : PagedKvCache)
    → IsCache c
    → EnsureOutcome n table c (ensure_capacity n (table, c))
unfolding EnsureOutcome
ensure_capacity-outcome n table c v =
    elim (Bool-cases (leb (missing_pages n table c) (length c.allocator.free_pages))) [
      | inl enough ↦
          let h = leb→le _ _ enough in
          rw (enough, ensure_runs n table c v h) (refl, ensure-Extends n table c v h)
      | inr short ↦ rw short (ensure_short n table c v (ground arith))
    ]
