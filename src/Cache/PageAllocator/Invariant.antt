-- ===== src/Cache/PageAllocator/Invariant.antt =====
-- The invariant of the allocator: every page is free or used, once, and it is used exactly while
-- its reference count is positive.
use solo_rt.Prelude.{
  ℕ, zero, suc, ◌+◌, ◌<◌, ◌≡◌, ltb, if◌then◌else◌, length, get_or, count, arith, ℤ, pos, negsuc, ok,
  count-range_from, length-range_from, length-replicate, get_or-replicate, replicate, range_from,
  [],
}
use solo_rt.Cache.PageAllocator.{PageAllocator, new_allocator}

pub record IsValid (a : PageAllocator) : Type 0 where
  pub paged : 0 < a.page_size
  pub sized : length a.ref_count ≡ a.num_pages
  pub split :
      (p : ℕ) → count p a.free_pages + count p a.used_pages ≡ (if ltb p a.num_pages then 1 else 0)
  pub used : (p : ℕ) → count p a.used_pages ≡ (if ltb 0 (get_or a.ref_count p 0) then 1 else 0)
  pub total : length a.free_pages + length a.used_pages ≡ a.num_pages

fresh : ℕ → ℕ → PageAllocator
fresh n s = record {
  num_pages = n;
  page_size = s;
  free_pages = range_from 0 n;
  used_pages = [];
  ref_count = replicate n 0;
}

fresh-IsValid : (n s : ℕ) → 0 < s → IsValid (fresh n s)
unfolding fresh
fresh-IsValid n s h = record {
  paged = h;
  sized = length-replicate n 0;
  split = λ p. grind (arith, count-range_from p 0 n);
  used = λ p. grind (arith, get_or-replicate {A = ℕ} n p 0);
  total = omega (arith, length-range_from 0 n);
}

pub new_allocator-IsValid :
    (num_pages page_size : ℤ) (a : PageAllocator)
    → new_allocator num_pages page_size ≡ ok a
    → IsValid a
unfolding new_allocator fresh
new_allocator-IsValid (pos (suc n)) (pos (suc s)) a h = grind (arith, fresh-IsValid (suc n) (suc s))
new_allocator-IsValid (pos (suc n)) (pos zero) a h = cc
new_allocator-IsValid (pos (suc n)) (negsuc s) a h = cc
new_allocator-IsValid (pos zero) s a h = cc
new_allocator-IsValid (negsuc n) s a h = cc
