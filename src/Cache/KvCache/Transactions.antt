-- ===== src/Cache/KvCache/Transactions.antt =====
-- Append transactions: a rollback undoes its reservation.
use solo_rt.Prelude.{
  ℕ, ◌+◌, ◌≤◌, ◌<◌, ◌≡◌, refl, ap, ◌∙◌, List, [], ◌∷◌, ◌++◌, ◌==◌, length, take, drop, arith, ℤ,
  pos, negsuc, ok, err, value_error, page_allocation_error, false, Bool-cases, inl, inr, ==_iff,
  length-append, length-take, length-drop, take-length_append, drop-length_append, append-nil,
}
use solo_rt.Prelude.Exec.{Exec, ◌>>=◌, >>=-ok}
use solo_rt.Cache.PageAllocator.Release.{holders}
use solo_rt.Cache.PageAllocator.History.{free-alloc}
use solo_rt.Cache.KvCache.{Held, PagedKvCache, begin_append_transaction, rollback_transaction}
use solo_rt.Cache.KvCache.Capacity.{
  IsCache, SameData, missing_pages, gained, allocated, ensure_runs, ensure-Extends, ensure_short,
}

length-zero {ℓ} : {A : Type ℓ} (l : List A) → length l ≡ 0 → l ≡ []
length-zero [] h = refl
length-zero (x ∷ l) h = absurd (omega (arith, h))

drop-take-length : (n : ℕ) (l : List ℕ) → length (drop n l ++ take n l) ≡ length l
drop-take-length n l =
    omega (arith, length-append (drop n l) (take n l), length-drop n l, length-take n l)

-- What a rolled-back reservation leaves: the cache as it was, but for the order of the queue.
pub record Restores (c e : PagedKvCache) : Type 0 where
  pub cache : IsCache e
  pub same : SameData c e
  pub counts : (p : ℕ) → holders e.allocator p ≡ holders c.allocator p
  pub queue : length e.allocator.free_pages ≡ length c.allocator.free_pages

abbrev pub reserve_and_roll_back : ℕ → ℤ → Exec Held Unit
reserve_and_roll_back current append =
    begin_append_transaction current append >>= rollback_transaction

module _ (n k : ℕ) (table : List ℕ) (c : PagedKvCache) (v : IsCache c)
    (enough : missing_pages (n + k) table c ≤ length c.allocator.free_pages) where
  abbrev new_pages : List ℕ
  new_pages = gained (n + k) table c v

  abbrev reserved : PagedKvCache
  reserved = record c { allocator = allocated (n + k) table c v }

  begin_runs : begin_append_transaction n (pos k) (table, c) ≡ (
    ok (record { pages = new_pages; original_block_len = length table }),
    (table ++ new_pages, reserved),
  )
  unfolding begin_append_transaction
  begin_runs = rw (ensure_runs (n + k) table c v enough, drop-length_append)

  nothing_reserved :
      length new_pages ≡ 0
      → (rollback_transaction
            (record { pages = new_pages; original_block_len = length table })
            (table ++ new_pages, reserved)
          ≡ (ok tt, (table, reserved)))
        × Restores c reserved
  unfolding rollback_transaction
  nothing_reserved z =
      let nil : new_pages ≡ [] = length-zero new_pages z in
      let ext = ensure-Extends (n + k) table c v enough in
      (
        rw nil (ap (λ l. (ok tt, (l, reserved))) (append-nil table)),
        record {
          cache = ext.cache;
          same = ext.same;
          counts = λ p. rw nil at (ext.fresh p);
          queue =
              ap length ext.queue
              ∙ omega (
                arith,
                z,
                length-take (missing_pages (n + k) table c) c.allocator.free_pages,
                length-drop (missing_pages (n + k) table c) c.allocator.free_pages,
              );
        },
      )

  some_reserved :
      (length new_pages == 0) ≡ false
      → (e : PagedKvCache) × (rollback_transaction
            (record { pages = new_pages; original_block_len = length table })
            (table ++ new_pages, reserved)
          ≡ (ok tt, (table, e)))
        × Restores c e
  unfolding rollback_transaction
  some_reserved more =
      let (a, run, queue, counts, valid, sized) =
        free-alloc (missing_pages (n + k) table c) c.allocator v.pages enough in
      (
        record c { allocator = a },
        rw (more, run, take-length_append),
        record {
          cache = record { pages = valid; sized = sized ∙ v.sized };
          same = record { config = refl; tensors = refl; mirrored = refl; skipped = refl };
          counts = counts;
          queue =
              ap length queue
              ∙ drop-take-length (missing_pages (n + k) table c) c.allocator.free_pages;
        },
      )

  rolled_back :
      (e : PagedKvCache) × (rollback_transaction
          (record { pages = new_pages; original_block_len = length table })
          (table ++ new_pages, reserved)
        ≡ (ok tt, (table, e)))
      × Restores c e
  rolled_back = elim (Bool-cases (length new_pages == 0)) [
    | inl z ↦ let (run, r) = nothing_reserved ((==_iff _ _).0 z) in (reserved, run, r)
    | inr more ↦ some_reserved more
  ]

  -- On a valid cache whose queue holds the missing pages, beginning an append transaction and
  -- rolling it back succeeds and gives back the very block table, the number of holders of every
  -- page and the length of the queue.
  pub roll_back-reserve :
      (e : PagedKvCache) × (reserve_and_roll_back n (pos k) (table, c) ≡ (ok tt, (table, e)))
      × Restores c e
  roll_back-reserve =
      let (e, run, r) = rolled_back in
      (
        e,
        >>=-ok (begin_append_transaction n (pos k)) rollback_transaction (table, c) begin_runs
            ∙ run,
        r,
      )

-- On a valid cache, beginning an append transaction with too few free pages raises
-- PageAllocationError, and with a negative number of tokens ValueError; neither changes the table
-- or the cache.
pub begin_errors :
    (n k : ℕ) (table : List ℕ) (c : PagedKvCache)
    → IsCache c
    → length c.allocator.free_pages < missing_pages (n + k) table c
    → (begin_append_transaction n (pos k) (table, c) ≡ (err page_allocation_error, (table, c)))
      × (begin_append_transaction n (negsuc k) (table, c) ≡ (err value_error, (table, c)))
unfolding begin_append_transaction
begin_errors n k table c v short = (rw (ensure_short (n + k) table c v short), refl)
