-- ===== src/Cache/PageAllocator/History.antt =====
-- Whole histories of calls on a `PageAllocator`, failing calls included, and the round trip of
-- `alloc` and `free`.
use solo_rt.Prelude.{
  ℕ, zero, suc, ◌+◌, ◌-◌, ◌≤◌, ◌≡◌, ◌∙◌, ap, List, [], ◌∷◌, ◌++◌, map, ltb, leb, length, count,
  take, drop, arith, ℤ, pos, negsuc, Result, ok, err, Bool-cases, inl, inr,
}
use solo_rt.Cache.PageAllocator as Pages
use solo_rt.Cache.PageAllocator.{PageAllocator, new_allocator}
use solo_rt.Cache.PageAllocator.Invariant.{IsValid, new_allocator-IsValid}
use solo_rt.Cache.PageAllocator.Alloc.{Takes, alloc-Takes, AllocOutcome, alloc-outcome}
use solo_rt.Cache.PageAllocator.Release.{
  holders, CountOutcome, incref-outcome, decref-outcome, free-Frees,
}

AllocOutcome-IsValid :
    (n : ℤ) (a : PageAllocator) (out : Result (List ℕ) × PageAllocator)
    → IsValid a
    → AllocOutcome n a out
    → IsValid out.1
unfolding AllocOutcome
AllocOutcome-IsValid (negsuc n) a out v o = rw o v
AllocOutcome-IsValid (pos n) a out v o = elim (Bool-cases (leb n (length a.free_pages))) [
  | inl fits ↦ (rw fits at o).valid
  | inr short ↦ rw (rw short at o) v
]

CountOutcome-IsValid :
    (p : ℤ) (change : ℕ → ℕ) (a : PageAllocator) (out : Result (Unit {0}) × PageAllocator)
    → IsValid a
    → CountOutcome p change a out
    → IsValid out.1
unfolding CountOutcome
CountOutcome-IsValid (negsuc p) change a out v o = rw o v
CountOutcome-IsValid (pos p) change a out v o = elim (Bool-cases (ltb 0 (holders a p))) [
  | inl held ↦ (rw held at o).1.valid
  | inr gone ↦ rw (rw gone at o) v
]

pub alloc-IsValid : (n : ℤ) (a : PageAllocator) → IsValid a → IsValid (Pages.alloc n a).1
alloc-IsValid n a v = AllocOutcome-IsValid n a (Pages.alloc n a) v (alloc-outcome n a v)

incref-IsValid : (p : ℤ) (a : PageAllocator) → IsValid a → IsValid (Pages.incref p a).1
incref-IsValid p a v =
    CountOutcome-IsValid p (λ n. n + 1) a (Pages.incref p a) v (incref-outcome p a v)

decref-IsValid : (p : ℤ) (a : PageAllocator) → IsValid a → IsValid (Pages.decref p a).1
decref-IsValid p a v =
    CountOutcome-IsValid p (λ n. n - 1) a (Pages.decref p a) v (decref-outcome p a v)

-- A loop that stops at the first raise keeps what each round keeps.
after_decref :
    (r : Result (Unit {0})) (pages : List ℤ) (b : PageAllocator)
    → IsValid b
    → IsValid (Pages.free pages b).1
    → IsValid
        (elim r as (λ _. Result (Unit {0}) × PageAllocator) [
          | ok _ ↦ Pages.free pages b
          | err e ↦ (err e, b)
        ]).1
after_decref (ok _) pages b v h = h
after_decref (err e) pages b v h = v

free-IsValid : (pages : List ℤ) (a : PageAllocator) → IsValid a → IsValid (Pages.free pages a).1
unfolding Pages.free
free-IsValid [] a v = v
free-IsValid (p ∷ pages) a v =
    let b : PageAllocator = (Pages.decref p a).1 in
    let w : IsValid b = decref-IsValid p a v in
    after_decref (Pages.decref p a).0 pages b w (free-IsValid pages b w)

-- The public calls.
pub data Call : Type 0 where
  alloc incref decref : ℤ → Call
  free : List ℤ → Call

pub perform : Call → PageAllocator → PageAllocator
perform (Call.alloc n) a = (Pages.alloc n a).1
perform (Call.incref p) a = (Pages.incref p a).1
perform (Call.decref p) a = (Pages.decref p a).1
perform (Call.free pages) a = (Pages.free pages a).1

unfoldable pub perform_all : List Call → PageAllocator → PageAllocator
perform_all [] a = a
perform_all (c ∷ calls) a = perform_all calls (perform c a)

perform-IsValid : (c : Call) (a : PageAllocator) → IsValid a → IsValid (perform c a)
unfolding perform
perform-IsValid (Call.alloc n) a v = alloc-IsValid n a v
perform-IsValid (Call.incref p) a v = incref-IsValid p a v
perform-IsValid (Call.decref p) a v = decref-IsValid p a v
perform-IsValid (Call.free pages) a v = free-IsValid pages a v

perform_all-keeps :
    (calls : List Call) (a : PageAllocator) → IsValid a → IsValid (perform_all calls a)
unfolding perform_all
perform_all-keeps [] a v = v
perform_all-keeps (c ∷ calls) a v = perform_all-keeps calls (perform c a) (perform-IsValid c a v)

-- From a new allocator and after any calls with any arguments, failing calls included, every page
-- below num_pages is in exactly one of the queue and the used set, once, no other page is in
-- either, and a page is used exactly while its reference count is positive.
pub perform_all-IsValid :
    (num_pages page_size : ℤ) (a : PageAllocator) (calls : List Call)
    → new_allocator num_pages page_size ≡ ok a
    → IsValid (perform_all calls a)
perform_all-IsValid num_pages page_size a calls h =
    perform_all-keeps calls a (new_allocator-IsValid num_pages page_size a h)

count-le-one : (p : ℕ) (a : PageAllocator) → IsValid a → count p a.free_pages ≤ 1
count-le-one p a v = ground (arith, v.split p)

count-take : (p n : ℕ) (l : List ℕ) → count p (take n l) ≤ count p l
count-take p zero l = omega arith
count-take p (suc n) [] = omega arith
count-take p (suc n) (x ∷ l) = ground (arith, count-take p n l)

-- From a valid allocator with at least n free pages, freeing the pages that alloc n has just
-- returned succeeds: the pages go to the end of the queue, every page has as many holders as
-- before, and the allocator is valid.
pub free-alloc :
    (n : ℕ) (a : PageAllocator)
    → IsValid a
    → n ≤ length a.free_pages
    → (d : PageAllocator) × (Pages.free (map pos (take n a.free_pages)) (Pages.alloc (pos n) a).1
        ≡ (ok tt, d))
      × (d.free_pages ≡ drop n a.free_pages ++ take n a.free_pages)
      × ((q : ℕ) → holders d q ≡ holders a q)
      × IsValid d
      × (d.page_size ≡ a.page_size)
free-alloc n a v h =
    let b : PageAllocator = (Pages.alloc (pos n) a).1 in
    let t : Takes n a (Pages.alloc (pos n) a).0 b = alloc-Takes n a v h in
    let pages : List ℕ = take n a.free_pages in
    let (d, run, f) =
      free-Frees pages b t.valid
        (λ q. omega (arith, count-take q n a.free_pages, count-le-one q a v))
        (λ q k. ground (arith, t.refs q)) in
    (
      d,
      run,
      f.queue ∙ ap (λ l. l ++ pages) t.rest,
      λ q. ground (arith, f.refs q, t.refs q, v.split q, v.used q, count-take q n a.free_pages),
      f.valid,
      f.same_size ∙ t.same_size,
    )
