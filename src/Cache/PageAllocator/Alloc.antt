-- ===== src/Cache/PageAllocator/Alloc.antt =====
-- `PageAllocator.alloc`: what it returns, what it changes, and that it keeps the invariant.
use solo_rt.Prelude.{
  ℕ, zero, suc, ◌+◌, ◌<◌, ◌≤◌, ◌≡◌, refl, List, [], ◌∷◌, ltb, leb, ◌==◌, if◌then◌else◌, length,
  get_or, set, count, take, drop, arith, ℤ, pos, negsuc, Result, ok, err, value_error,
  page_allocation_error, count-append, length-append, contains-count, get_or-set, length-set,
  Bool-cases, inl, inr, leb→le,
}
use solo_rt.Cache.PageAllocator.{PageAllocator, add, take_page, take_pages, alloc}
use solo_rt.Cache.PageAllocator.Invariant.{IsValid}

pub count-add :
    (q p : ℕ) (pages : List ℕ)
    → count p pages ≡ 0
    → count q (add p pages) ≡ count q pages + (if p == q then 1 else 0)
unfolding add
count-add q p pages h = ground (arith, contains-count p pages, count-append q pages (p ∷ []))

pub length-add :
    (p : ℕ) (pages : List ℕ) → count p pages ≡ 0 → length (add p pages) ≡ length pages + 1
unfolding add
length-add p pages h = ground (arith, contains-count p pages, length-append pages (p ∷ []))

-- The state after one round of the loop, from a state whose first free page is `page`.
abbrev pub taken : ℕ → List ℕ → PageAllocator → PageAllocator
taken page rest a = record a {
  free_pages = rest;
  used_pages = add page a.used_pages;
  ref_count = set a.ref_count page 1;
}

module _ (a : PageAllocator) (page : ℕ) (rest : List ℕ) (v : IsValid a)
    (e : a.free_pages ≡ page ∷ rest) where
  head_is_free : (page < a.num_pages) × (count page a.used_pages ≡ 0)
  head_is_free = ground (arith, v.split page)

  take_page_lem : take_page a ≡ (ok page, taken page rest a)
  unfolding take_page
  take_page_lem = ground (arith, head_is_free, v.sized)

  taken-IsValid : IsValid (taken page rest a)
  taken-IsValid = record {
    paged = v.paged;
    sized = omega (arith, length-set a.ref_count page 1, v.sized);
    split = λ p. ground (arith, head_is_free, v.split p, count-add p page a.used_pages);
    used = λ p. ground (
      arith,
      head_is_free,
      v.used p,
      v.sized,
      count-add p page a.used_pages,
      get_or-set a.ref_count page p 1 0,
    );
    total = ground (arith, head_is_free, v.total, length-add page a.used_pages);
  }

-- What `n` rounds of the loop do: they take the first `n` free pages in order, give each the
-- count 1, and leave every other count, the size of the cache and the invariant alone.
pub record Takes (n : ℕ) (a : PageAllocator) (r : Result (List ℕ)) (b : PageAllocator)
    : Type 0 where
  pub pages : r ≡ ok (take n a.free_pages)
  pub rest : b.free_pages ≡ drop n a.free_pages
  pub valid : IsValid b
  pub refs :
      (p : ℕ)
      → get_or b.ref_count p 0
        ≡ (if ltb 0 (count p (take n a.free_pages)) then 1 else get_or a.ref_count p 0)
  pub same_pages : b.num_pages ≡ a.num_pages
  pub same_size : b.page_size ≡ a.page_size

module _ (n : ℕ) (a : PageAllocator) (page : ℕ) (rest : List ℕ) (v : IsValid a)
    (e : a.free_pages ≡ page ∷ rest) where
  take_pages-suc :
      (b : PageAllocator)
      → take_pages n (taken page rest a) ≡ (ok (take n rest), b)
      → take_pages (suc n) a ≡ (ok (take (suc n) a.free_pages), b)
  unfolding take_pages
  take_pages-suc b h = ground (arith, take_page_lem a page rest v e)

  Takes-suc :
      (b : PageAllocator)
      → Takes n (taken page rest a) (ok (take n rest)) b
      → Takes (suc n) a (ok (take (suc n) a.free_pages)) b
  Takes-suc b t = record {
    pages = refl;
    rest = rw e t.rest;
    valid = t.valid;
    refs = λ p.
        ground (
          arith,
          t.refs p,
          v.sized,
          head_is_free a page rest v e,
          get_or-set a.ref_count page p 1 0,
        );
    same_pages = t.same_pages;
    same_size = t.same_size;
  }

take_pages_from :
    (n : ℕ) (a : PageAllocator) (l : List ℕ)
    → a.free_pages ≡ l
    → IsValid a
    → n ≤ length l
    → (b : PageAllocator) × (take_pages n a ≡ (ok (take n a.free_pages), b))
      × Takes n a (ok (take n a.free_pages)) b
unfolding take_pages
take_pages_from zero a l e v h = (
  a,
  refl,
  record {
    pages = refl;
    rest = refl;
    valid = v;
    refs = λ p. refl;
    same_pages = refl;
    same_size = refl;
  },
)
take_pages_from (suc n) a [] e v h = absurd (omega arith)
take_pages_from (suc n) a (page ∷ rest) e v h =
    let (b, run, t) =
      take_pages_from n (taken page rest a) rest refl (taken-IsValid a page rest v e)
        (omega arith) in
    (b, take_pages-suc n a page rest v e b run, Takes-suc n a page rest v e b t)

pub take_pages-Takes :
    (n : ℕ) (a : PageAllocator)
    → IsValid a
    → n ≤ length a.free_pages
    → Takes n a (take_pages n a).0 (take_pages n a).1
take_pages-Takes n a v h = let (b, run, t) = take_pages_from n a a.free_pages refl v h in rw run t

-- From a valid allocator, `alloc n` with n no greater than the number of free pages returns the n
-- oldest free pages in the order of the queue, which leave the queue; exactly their counts become
-- 1; and the new state is valid. With more it raises `PageAllocationError`, a negative n raises
-- `ValueError`, and both leave the state as it was.
unfoldable pub AllocOutcome : ℤ → PageAllocator → Result (List ℕ) × PageAllocator → Type 0
AllocOutcome (negsuc n) a out = out ≡ (err value_error, a)
AllocOutcome (pos n) a out =
    if leb n (length a.free_pages)
    then Takes n a out.0 out.1
    else out ≡ (err page_allocation_error, a)

alloc-take_pages :
    (n : ℕ) (a : PageAllocator) → n ≤ length a.free_pages → alloc (pos n) a ≡ take_pages n a
unfolding alloc take_pages
alloc-take_pages zero a h = refl
alloc-take_pages (suc n) a h = ground arith

pub alloc-Takes :
    (n : ℕ) (a : PageAllocator)
    → IsValid a
    → n ≤ length a.free_pages
    → Takes n a (alloc (pos n) a).0 (alloc (pos n) a).1
alloc-Takes n a v h = rw (alloc-take_pages n a h) (take_pages-Takes n a v h)

pub alloc_short :
    (n : ℕ) (a : PageAllocator)
    → length a.free_pages < n
    → alloc (pos n) a ≡ (err page_allocation_error, a)
unfolding alloc
alloc_short n a h = ground arith

-- From a valid allocator, alloc n with n no greater than the number of free pages returns the n
-- oldest free pages in the order of the queue, which leave it, exactly their counts become 1, and
-- the new state is valid; with a greater n it raises PageAllocationError, with a negative n
-- ValueError, and both leave the state as it was.
pub alloc-outcome : (n : ℤ) (a : PageAllocator) → IsValid a → AllocOutcome n a (alloc n a)
unfolding AllocOutcome
alloc-outcome (negsuc n) a v = unfold alloc in refl
alloc-outcome (pos n) a v = elim (Bool-cases (leb n (length a.free_pages))) [
  | inl fits ↦ rw fits (alloc-Takes n a v (leb→le _ _ fits))
  | inr short ↦ rw short (alloc_short n a (ground arith))
]
