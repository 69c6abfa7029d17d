-- ===== src/Cache/PageAllocator/Release.antt =====
-- `incref`, `decref` and `free` of `PageAllocator`.
use solo_rt.Prelude.{
  ℕ, zero, suc, ◌+◌, ◌-◌, ◌<◌, ◌≤◌, ◌≡◌, refl, ap, ◌∙◌, List, [], ◌∷◌, ◌++◌, map, ltb, ◌==◌,
  if◌then◌else◌, length, get_or, set, count, arith, ℤ, pos, negsuc, Result, ok, err, value_error,
  append_assoc, append-nil, count-append, length-append, contains-count, get_or-set, length-set,
  count-erase, length-erase, Bool-cases, inl, inr, ltb→lt, lt→ltb, ==_iff, false, true, sym,
}
use solo_rt.Prelude.Exec.{>>=-ok, >>=-err}
use solo_rt.Cache.PageAllocator.{
  PageAllocator, validate_allocated, add_reference, drop_reference, settle, incref, decref, free,
}
use solo_rt.Cache.PageAllocator.Invariant.{IsValid}

-- The number of holders of a page: its count, 0 outside the cache.
abbrev pub holders : PageAllocator → ℕ → ℕ
holders a p = get_or a.ref_count p 0

get_or_pos : (l : List ℕ) (p : ℕ) → 0 < get_or l p 0 → p < length l
get_or_pos [] p h = absurd (omega arith)
get_or_pos (x ∷ l) zero h = omega arith
get_or_pos (x ∷ l) (suc p) h = omega (arith, get_or_pos l p h)

-- `_validate_allocated` accepts exactly the pages with a holder.
pub validate_lem :
    (p : ℕ) (a : PageAllocator)
    → IsValid a
    → validate_allocated (pos p) a ≡ ((if ltb 0 (holders a p) then ok p else err value_error), a)
unfolding validate_allocated
validate_lem p a v = ground (arith, v.split p, v.used p, contains-count p a.used_pages)

-- How one call that changes the count of page `p` to `count` leaves the allocator.
pub record Counts (p n : ℕ) (a b : PageAllocator) : Type 0 where
  pub valid : IsValid b
  pub refs : (q : ℕ) → holders b q ≡ (if p == q then n else holders a q)
  pub queue : b.free_pages ≡ (if n == 0 then a.free_pages ++ p ∷ [] else a.free_pages)
  pub same_pages : b.num_pages ≡ a.num_pages
  pub same_size : b.page_size ≡ a.page_size

module _ (p : ℕ) (a : PageAllocator) (v : IsValid a) (held : 0 < holders a p) where
  in_table : p < length a.ref_count
  in_table = get_or_pos a.ref_count p held

  add_reference-Counts : Counts p (holders a p + 1) a (add_reference p a).1
  unfolding add_reference
  add_reference-Counts = record {
    valid = record {
      paged = v.paged;
      sized = omega (arith, length-set a.ref_count p (holders a p + 1), v.sized);
      split = v.split;
      used =
          λ q. ground (arith, v.used q, in_table, get_or-set a.ref_count p q (holders a p + 1) 0);
      total = v.total;
    };
    refs = λ q. get_or-set a.ref_count p q (holders a p + 1) 0 in_table;
    queue = ground arith;
    same_pages = refl;
    same_size = refl;
  }

  abbrev lowered : PageAllocator
  lowered = record a { ref_count = set a.ref_count p (holders a p - 1) }

  holders-lowered : holders lowered p ≡ holders a p - 1
  holders-lowered = ground (arith, in_table, get_or-set a.ref_count p p (holders a p - 1) 0)

  zeroed : get_or (set a.ref_count p 0) p 0 ≡ 0
  zeroed = ground (arith, in_table, get_or-set a.ref_count p p 0 0)

  last_holder :
      holders a p ≡ 1 → Counts p 0 a (settle p (record a { ref_count = set a.ref_count p 0 }))
  unfolding settle
  last_holder e = rw (zeroed) (record {
    valid = record {
      paged = v.paged;
      sized = omega (arith, length-set a.ref_count p 0, v.sized);
      split = λ q. ground (
        arith,
        v.split q,
        v.used p,
        count-append q a.free_pages (p ∷ []),
        count-erase q p a.used_pages,
      );
      used = λ q. ground (
        arith,
        v.used q,
        v.used p,
        in_table,
        get_or-set a.ref_count p q 0 0,
        count-erase q p a.used_pages,
      );
      total = ground (
        arith,
        v.total,
        v.used p,
        length-append a.free_pages (p ∷ []),
        length-erase p a.used_pages,
      );
    };
    refs = λ q. get_or-set a.ref_count p q 0 0 in_table;
    queue = refl;
    same_pages = refl;
    same_size = refl;
  })

  settle_more : 1 < holders a p → settle p lowered ≡ lowered
  unfolding settle
  settle_more h = ground (arith, holders-lowered)

  more_holders : 1 < holders a p → Counts p (holders a p - 1) a lowered
  more_holders h = record {
    valid = record {
      paged = v.paged;
      sized = omega (arith, length-set a.ref_count p (holders a p - 1), v.sized);
      split = v.split;
      used =
          λ q. ground (arith, v.used q, in_table, get_or-set a.ref_count p q (holders a p - 1) 0);
      total = v.total;
    };
    refs = λ q. get_or-set a.ref_count p q (holders a p - 1) 0 in_table;
    queue = ground arith;
    same_pages = refl;
    same_size = refl;
  }

  settle-Counts : Counts p (holders a p - 1) a (settle p lowered)
  settle-Counts = elim (Bool-cases (holders a p == 1)) [
    | inl last ↦
        let e : holders a p ≡ 1 = (==_iff _ _).0 last in
        let z : holders a p - 1 ≡ 0 = omega arith in rw z (last_holder e)
    | inr more ↦ let h : 1 < holders a p = ground arith in rw (settle_more h) (more_holders h)
  ]

  drop_reference-Counts : Counts p (holders a p - 1) a (drop_reference p a).1
  unfolding drop_reference
  drop_reference-Counts = settle-Counts

-- A call on page `p` that sets its count to `n`, or raises `ValueError` and changes nothing when
-- `p` has no holder.
unfoldable pub CountOutcome :
    ℤ → (ℕ → ℕ) → PageAllocator → Result (Unit {0}) × PageAllocator → Type 0
CountOutcome (negsuc p) change a out = out ≡ (err value_error, a)
CountOutcome (pos p) change a out =
    if ltb 0 (holders a p)
    then (out.0 ≡ ok tt) × Counts p (change (holders a p)) a out.1
    else out ≡ (err value_error, a)

module _ (p : ℕ) (a : PageAllocator) (v : IsValid a) where
  incref_held : ltb 0 (holders a p) ≡ true → incref (pos p) a ≡ add_reference p a
  unfolding incref
  incref_held h = >>=-ok (validate_allocated (pos p)) add_reference a (rw h at (validate_lem p a v))

  incref_free : ltb 0 (holders a p) ≡ false → incref (pos p) a ≡ (err value_error, a)
  unfolding incref
  incref_free h =
      >>=-err (validate_allocated (pos p)) add_reference a (rw h at (validate_lem p a v))

  decref_held : ltb 0 (holders a p) ≡ true → decref (pos p) a ≡ drop_reference p a
  unfolding decref
  decref_held h =
      >>=-ok (validate_allocated (pos p)) drop_reference a (rw h at (validate_lem p a v))

  decref_free : ltb 0 (holders a p) ≡ false → decref (pos p) a ≡ (err value_error, a)
  unfolding decref
  decref_free h =
      >>=-err (validate_allocated (pos p)) drop_reference a (rw h at (validate_lem p a v))

  add_reference_ok : (add_reference p a).0 ≡ ok tt
  unfolding add_reference
  add_reference_ok = refl

  drop_reference_ok : (drop_reference p a).0 ≡ ok tt
  unfolding drop_reference
  drop_reference_ok = refl

pub incref-outcome :
    (p : ℤ) (a : PageAllocator) → IsValid a → CountOutcome p (λ n. n + 1) a (incref p a)
unfolding CountOutcome
incref-outcome (negsuc p) a v = unfold incref validate_allocated in refl
incref-outcome (pos p) a v = elim (Bool-cases (ltb 0 (holders a p))) [
  | inl held ↦
      let h : 0 < holders a p = ltb→lt _ _ held in
      rw (held, incref_held p a v held) (add_reference_ok p a v, add_reference-Counts p a v h)
  | inr gone ↦ rw gone (incref_free p a v gone)
]

-- On a valid allocator, decref of a page with a holder succeeds, takes one from its count alone and
-- appends the page to the queue exactly if the count becomes 0; for any other page, a negative one
-- included, it raises ValueError and changes nothing.
pub decref-outcome :
    (p : ℤ) (a : PageAllocator) → IsValid a → CountOutcome p (λ n. n - 1) a (decref p a)
unfolding CountOutcome
decref-outcome (negsuc p) a v = unfold decref validate_allocated in refl
decref-outcome (pos p) a v = elim (Bool-cases (ltb 0 (holders a p))) [
  | inl held ↦
      let h : 0 < holders a p = ltb→lt _ _ held in
      rw (held, decref_held p a v held) (drop_reference_ok p a v, drop_reference-Counts p a v h)
  | inr gone ↦ rw gone (decref_free p a v gone)
]

set-set : (l : List ℕ) (p x y : ℕ) → set (set l p x) p y ≡ set l p y
set-set [] p x y = refl
set-set (z ∷ l) zero x y = refl
set-set (z ∷ l) (suc p) x y = ap (λ t. z ∷ t) (set-set l p x y)

set-get_or : (l : List ℕ) (p : ℕ) → set l p (get_or l p 0) ≡ l
set-get_or [] p = refl
set-get_or (z ∷ l) zero = refl
set-get_or (z ∷ l) (suc p) = ap (λ t. z ∷ t) (set-get_or l p)

module _ (p : ℕ) (a : PageAllocator) (v : IsValid a) (h : 0 < holders a p) where
  settle_held : settle p a ≡ a
  unfolding settle
  settle_held = ground arith

  put_back :
      set
        (set a.ref_count p (holders a p + 1))
        p
        (get_or (set a.ref_count p (holders a p + 1)) p 0 - 1)
      ≡ a.ref_count
  put_back =
      let kept : get_or (set a.ref_count p (holders a p + 1)) p 0 - 1 ≡ holders a p =
        ground (arith, in_table p a v h, get_or-set a.ref_count p p (holders a p + 1) 0) in
      rw (kept, set-set) (set-get_or a.ref_count p)

  drop_after_add : drop_reference p (add_reference p a).1 ≡ (ok tt, a)
  unfolding drop_reference add_reference
  drop_after_add =
      ap (λ l. (ok tt, settle p (record a { ref_count = l }))) put_back
      ∙ ap (λ b. (ok tt, b)) settle_held

-- On a valid allocator and a page with a holder, dropping a reference just after taking it succeeds
-- and gives back the very same allocator.
pub decref-incref :
    (p : ℕ) (a : PageAllocator)
    → IsValid a
    → 0 < holders a p
    → decref (pos p) (incref (pos p) a).1 ≡ (ok tt, a)
decref-incref p a v h =
    let b : PageAllocator = (add_reference p a).1 in
    let c : Counts p (holders a p + 1) a b = add_reference-Counts p a v h in
    rw (incref_held p a v (lt→ltb _ _ h))
      (decref_held p b c.valid (ground (arith, c.refs p)) ∙ drop_after_add p a v h)

-- How `free pages` leaves the allocator, each page having one holder.
pub record Frees (pages : List ℕ) (a b : PageAllocator) : Type 0 where
  pub valid : IsValid b
  pub refs : (q : ℕ) → holders b q ≡ (if ltb 0 (count q pages) then 0 else holders a q)
  pub queue : b.free_pages ≡ a.free_pages ++ pages
  pub same_pages : b.num_pages ≡ a.num_pages
  pub same_size : b.page_size ≡ a.page_size

module _ (p : ℕ) (pages : List ℕ) (a b d : PageAllocator) where
  free_cons :
      decref (pos p) a ≡ (ok tt, b)
      → free (map pos pages) b ≡ (ok tt, d)
      → free (map pos (p ∷ pages)) a ≡ (ok tt, d)
  unfolding free
  free_cons e run = >>=-ok (decref (pos p)) (λ _. free (map pos pages)) a e ∙ run

  Frees-cons :
      ((q : ℕ) → count q (p ∷ pages) ≤ 1) → Counts p 0 a b → Frees pages b d → Frees (p ∷ pages) a d
  Frees-cons once c f = record {
    valid = f.valid;
    refs = λ q. ground (arith, f.refs q, c.refs q);
    queue = f.queue ∙ ap (λ l. l ++ pages) c.queue ∙ append_assoc a.free_pages (p ∷ []) pages;
    same_pages = f.same_pages ∙ c.same_pages;
    same_size = f.same_size ∙ c.same_size;
  }

decref_runs :
    (p : ℕ) (a : PageAllocator)
    → IsValid a
    → holders a p ≡ 1
    → decref (pos p) a ≡ (ok tt, (drop_reference p a).1)
decref_runs p a v h = rw (decref_held p a v (ground arith)) (unfold drop_reference in refl)

pub free-Frees :
    (pages : List ℕ) (a : PageAllocator)
    → IsValid a
    → ((q : ℕ) → count q pages ≤ 1)
    → ((q : ℕ) → 0 < count q pages → holders a q ≡ 1)
    → (b : PageAllocator) × (free (map pos pages) a ≡ (ok tt, b)) × Frees pages a b
unfolding free
free-Frees [] a v once one = (
  a,
  refl,
  record {
    valid = v;
    refs = λ q. refl;
    queue = sym (append-nil a.free_pages);
    same_pages = refl;
    same_size = refl;
  },
)
free-Frees (p ∷ pages) a v once one =
    let held : holders a p ≡ 1 = one p (ground arith) in
    let b : PageAllocator = (drop_reference p a).1 in
    let c : Counts p 0 a b = rw held at (drop_reference-Counts p a v (omega arith)) in
    let (d, run, f) =
      free-Frees pages b c.valid (λ q. ground (arith, once q))
        (λ q h. ground (arith, once q, one q, c.refs q)) in
    (d, free_cons p pages a b d (decref_runs p a v held) run, Frees-cons p pages a b d once c f)
