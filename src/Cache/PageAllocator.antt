-- ===== src/Cache/PageAllocator.antt =====
-- src/solort/cache/page_allocator.py: the reference-counted allocator of KV pages.
-- A method is an action of `Exec PageAllocator`; `used_pages`, a Python set, is a list that `add`
-- keeps free of repetitions, and the deque `free_pages` is a list whose head is its left end.
pub mod Invariant
pub mod Alloc
pub mod Release
pub mod History
use solo_rt.Prelude.{
  ℕ, zero, suc, ◌+◌, ◌-◌, ◌&&◌, ◌||◌, not, Bool, List, [], ◌∷◌, ◌++◌, ltb, leb, ◌==◌, if◌then◌else◌,
  length, get_or, set, replicate, range_from, contains, erase, ℤ, pos, negsuc, Result, ok, err,
  value_error, index_error, page_allocation_error,
}
use solo_rt.Prelude.Exec.{Exec, ◌>>=◌, ◌>>◌, pure}

pub record PageAllocator : Type 0 where
  pub num_pages : ℕ
  pub page_size : ℕ
  pub free_pages : List ℕ
  pub used_pages : List ℕ
  pub ref_count : List ℕ

-- `__init__` and `__post_init__`.
unfoldable pub new_allocator : ℤ → ℤ → Result PageAllocator
new_allocator (pos (suc num_pages)) (pos (suc page_size)) = ok (record {
  num_pages = suc num_pages;
  page_size = suc page_size;
  free_pages = range_from 0 (suc num_pages);
  used_pages = [];
  ref_count = replicate (suc num_pages) 0;
})
new_allocator _ _ = err value_error

-- `set.add`
unfoldable pub add : ℕ → List ℕ → List ℕ
add page pages = if contains pages page then pages else pages ++ page ∷ []

-- One round of the loop of `alloc`. `popleft` of an empty deque and a write past the end of
-- `ref_count` raise `IndexError`.
unfoldable pub take_page : Exec PageAllocator ℕ
unfolding add
take_page a = elim a.free_pages [
  | [] ↦ (err index_error, a)
  | page ∷ rest ↦
      let popped : PageAllocator = record a {
        free_pages = rest;
        used_pages = add page a.used_pages;
      } in
      if ltb page (length a.ref_count)
      then (ok page, record popped { ref_count = set a.ref_count page 1 })
      else (err index_error, popped)
]

unfoldable pub take_pages : ℕ → Exec PageAllocator (List ℕ)
take_pages zero = pure []
take_pages (suc n) = do page ← take_page; pages ← take_pages n; pure (page ∷ pages)

unfoldable pub alloc : ℤ → Exec PageAllocator (List ℕ)
alloc (negsuc n) a = (err value_error, a)
alloc (pos n) a =
    if n == 0
    then (ok [], a)
    else if ltb (length a.free_pages) n
    then (err page_allocation_error, a)
    else take_pages n a

-- `_validate_allocated`
unfoldable pub validate_allocated : ℤ → Exec PageAllocator ℕ
validate_allocated (negsuc n) a = (err value_error, a)
validate_allocated (pos page) a =
    if leb a.num_pages page
    then (err value_error, a)
    else if (get_or a.ref_count page 0 == 0) || not (contains a.used_pages page)
    then (err value_error, a)
    else (ok page, a)

unfoldable pub add_reference : ℕ → Exec PageAllocator Unit
add_reference page a =
    (ok tt, record a { ref_count = set a.ref_count page (get_or a.ref_count page 0 + 1) })

-- The end of `decref`: a page with no reference left goes back to the end of the queue.
unfoldable pub settle : ℕ → PageAllocator → PageAllocator
settle page a =
    if get_or a.ref_count page 0 == 0
    then record a { used_pages = erase a.used_pages page; free_pages = a.free_pages ++ page ∷ [] }
    else a

unfoldable pub drop_reference : ℕ → Exec PageAllocator Unit
drop_reference page a = (
  ok tt,
  settle page (record a { ref_count = set a.ref_count page (get_or a.ref_count page 0 - 1) }),
)

unfoldable pub incref : ℤ → Exec PageAllocator Unit
incref page_id = do page ← validate_allocated page_id; add_reference page

unfoldable pub decref : ℤ → Exec PageAllocator Unit
decref page_id = do page ← validate_allocated page_id; drop_reference page

unfoldable pub free : List ℤ → Exec PageAllocator Unit
free [] = pure tt
free (page_id ∷ pages) = do decref page_id; free pages

pub record AllocatorSnapshot : Type 0 where
  pub num_pages : ℕ
  pub page_size : ℕ
  pub free_pages : ℕ
  pub used_pages : ℕ

unfoldable pub snapshot : PageAllocator → AllocatorSnapshot
snapshot a = record {
  num_pages = a.num_pages;
  page_size = a.page_size;
  free_pages = length a.free_pages;
  used_pages = length a.used_pages;
}
