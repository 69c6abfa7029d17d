-- ===== src/Cache/PrefixCache/Capacity.antt =====
-- What an insertion leaves: it is found again, and the capacity holds only while enough entries
-- are unpinned and unreferenced.
use solo_rt.Prelude.{
  ℕ, zero, suc, ◌+◌, ◌-◌, ◌≤◌, ◌≡◌, inl, inr, refl, ap, sym, Bool, true, false, Option, none, some,
  List, [], ◌∷◌, ◌++◌, ◌==◌, length, arith, Bool-cases, pos, Result, ok, err, length-append,
  take-length_append,
}
use solo_rt.Prelude.Sort.{All, Has, here, there, All-Has, sort_by}
use solo_rt.Cache.BlockHash.{Text, make_key}
use solo_rt.Cache.PrefixCache.{
  PrefixCache, PrefixMatch, Address, same_list, addresses, put, update, is_evictable, remove_all,
  eviction_order, select, older, evict, evict_to_capacity, added, insert, match_prefix,
}
use solo_rt.Cache.PrefixCache.Match.{Fits, AtLeast, IsLongest, match_prefix-IsLongest}
use solo_rt.Cache.PrefixCache.Evict.{IsFresh, Holds, evict_keeps}
use solo_rt.Cache.PrefixCache.Insert.{
  IsWellFormed, AreEntries-IsKeyed, added-IsWellFormed, evict_to_capacity-IsWellFormed,
}

-- An insertion into a well-formed prefix cache, also one that raises, leaves it well-formed: every
-- entry was made by the cache, is filed under its own key with the true number of its tokens, and
-- no key occurs twice.
pub insert-IsWellFormed :
    (blake2b : List ℕ → List ℕ) (now : ℕ) (tokens pages : List ℕ) (pinned : Bool) (p : PrefixCache)
    → IsWellFormed p
    → IsWellFormed (insert blake2b now tokens pages pinned p).1
unfolding insert
insert-IsWellFormed blake2b now tokens pages pinned p v =
    outcome (make_key blake2b p.block_size tokens)
  where
    outcome :
        (r : Result Text)
        → IsWellFormed
            (elim r as (λ _. Result Address × PrefixCache) [
              | err e ↦ (err e, p)
              | ok key ↦ (ok p.next, evict_to_capacity (added key tokens pages pinned now p))
            ]).1
    outcome (ok key) =
        evict_to_capacity-IsWellFormed (added key tokens pages pinned now p)
          (added-IsWellFormed key tokens pages pinned now p v)
    outcome (err e) = v

put-Holds :
    (key : Text) (a : Address) (l : List (Text × Address)) → (k : Text) × Holds k a (put key a l)
unfolding put
put-Holds key a [] = (key, here refl)
put-Holds key a (e ∷ l) = elim (Bool-cases (same_list e.0 key)) [
  | inl s ↦ rw s (e.0, here refl)
  | inr s ↦ let (k, m) = put-Holds key a l in rw s (k, there m)
]

Holds-addresses :
    (k : Text) (a : Address) (l : List (Text × Address))
    → Holds k a l
    → Has (λ b. b ≡ a) (addresses l)
unfolding addresses
Holds-addresses k a [] m = elim m [ ]
Holds-addresses k a (e ∷ l) (here q) = here {x = e.1} (ap (λ (x : Text × Address). x.1) q)
Holds-addresses k a (e ∷ l) (there m) = there (Holds-addresses k a l m)

evict_to_capacity_keeps :
    (p : PrefixCache) (k : Text) (a : Address)
    → IsWellFormed p
    → Holds k a p.entries
    → is_evictable p a ≡ false
    → Holds k a (evict_to_capacity p).entries
unfolding evict_to_capacity
evict_to_capacity_keeps p k a v m u = elim (Bool-cases (length p.entries - p.max_entries == 0)) [
  | inl fits ↦ rw fits m
  | inr over ↦ rw over (
      evict_keeps p k a (pos (length p.entries - p.max_entries))
        (AreEntries-IsKeyed p p.entries v.filed) m u)
]

heap-evict_to_capacity : (p : PrefixCache) → (evict_to_capacity p).heap ≡ p.heap
unfolding evict_to_capacity evict
heap-evict_to_capacity p = ground arith

covers :
    (now : ℕ) (tokens : List ℕ) (p q : PrefixCache) (m : PrefixMatch) (a : Address)
    (r : Option Address)
    → IsLongest now tokens p m q
    → m.entry ≡ r
    → AtLeast p (some a) r
    → (p.heap a).token_count ≤ m.matched_tokens
covers now tokens p q m a none l e h = absurd h
covers now tokens p q m a (some b) l e h = omega (arith, (l.reported b e).0)

-- The cache that a pinned insertion leaves, when the key can be made.
module _ (key : Text) (tokens pages : List ℕ) (now : ℕ) (p : PrefixCache) where
  abbrev grown : PrefixCache
  grown = added key tokens pages true now p

  abbrev settled : PrefixCache
  settled = evict_to_capacity grown

  new_entry :
      ((settled.heap p.next).token_count ≡ length tokens)
      × ((settled.heap p.next).token_ids ≡ tokens)
  unfolding added update
  new_entry = rw heap-evict_to_capacity (ground arith, ground arith)

  grown_keeps_new : is_evictable grown p.next ≡ false
  unfolding is_evictable added update
  grown_keeps_new = ground arith

  new_Holds : (k : Text) × Holds k p.next grown.entries
  unfolding added update
  new_Holds = put-Holds key p.next p.entries

  new_member : IsWellFormed p → Has (λ b. b ≡ p.next) (addresses settled.entries)
  new_member v =
      let (k, m) = new_Holds in
      Holds-addresses k p.next settled.entries (
        evict_to_capacity_keeps grown k p.next (added-IsWellFormed key tokens pages true now p v) m
          grown_keeps_new)

  new_Fits : (more : List ℕ) → Fits settled (tokens ++ more) p.next
  new_Fits more =
      let (c, t) = new_entry in
      (
        omega (arith, c, length-append tokens more),
        rw (t, c) (sym (take-length_append tokens more)),
      )

  new_found :
      (later : ℕ) (more : List ℕ)
      → IsWellFormed p
      → length tokens ≤ (match_prefix later (tokens ++ more) settled).0.matched_tokens
  new_found later more v =
      let l = match_prefix-IsLongest later (tokens ++ more) settled in
      let m = (match_prefix later (tokens ++ more) settled).0 in
      let (a, f, e) = All-Has (addresses settled.entries) l.longest (new_member v) in
      let at : Fits settled (tokens ++ more) p.next → AtLeast settled (some p.next) m.entry =
        rw e at f in
      rw (← new_entry.0) (
        covers later (tokens ++ more) settled (match_prefix later (tokens ++ more) settled).1 m
          p.next m.entry l refl (at (new_Fits more)))

-- In a well-formed prefix cache and for tokens whose key can be made, after a pinned insertion of
-- the tokens a prompt that begins with them finds a prefix of at least that many tokens, whatever
-- the insertion evicted.
pub match-insert :
    (blake2b : List ℕ → List ℕ) (now later : ℕ) (tokens more pages : List ℕ) (p : PrefixCache)
    (key : Text)
    → IsWellFormed p
    → make_key blake2b p.block_size tokens ≡ ok key
    → length tokens
      ≤ (match_prefix later
          (tokens ++ more)
          (insert blake2b now tokens pages true p).1).0.matched_tokens
unfolding insert
match-insert blake2b now later tokens more pages p key v e =
    rw (insert, e) (new_found key tokens pages now p later more v)

abbrev pub AllPinned : PrefixCache → List Address → Type 0
AllPinned p l = All (λ a. (p.heap a).pinned ≡ true) l

select_none : (p : PrefixCache) (l : List Address) → AllPinned p l → select (is_evictable p) l ≡ []
unfolding select is_evictable
select_none p [] h = refl
select_none p (a ∷ l) h = rw (h.0, select_none p l h.1)

eviction_order_none : (p : PrefixCache) → AllPinned p (addresses p.entries) → eviction_order p ≡ []
unfolding eviction_order sort_by
eviction_order_none p h = ap (sort_by (older p)) (select_none p (addresses p.entries) h)

evict_none :
    (n : ℕ) (p : PrefixCache) → AllPinned p (addresses p.entries) → evict (pos n) p ≡ ([], p)
unfolding evict remove_all
evict_none zero p h = refl
evict_none (suc n) p h = rw (eviction_order_none p h)

evict_to_capacity_none :
    (p : PrefixCache) → AllPinned p (addresses p.entries) → evict_to_capacity p ≡ p
unfolding evict_to_capacity
evict_to_capacity_none p h = rw (evict_none (length p.entries - p.max_entries) p h) (ground arith)

length-put :
    (key : Text) (a : Address) (l : List (Text × Address))
    → IsFresh key l
    → length (put key a l) ≡ length l + 1
unfolding put
length-put key a [] h = omega arith
length-put key a (e ∷ l) h = rw h.0 (omega (arith, length-put key a l h.1))

AllPinned-keep :
    (p q : PrefixCache) (l : List Address)
    → ((b : Address) → (p.heap b).pinned ≡ true → (q.heap b).pinned ≡ true)
    → AllPinned p l
    → AllPinned q l
AllPinned-keep p q [] s h = tt
AllPinned-keep p q (b ∷ l) s h = (s b h.0, AllPinned-keep p q l s h.1)

AllPinned-put :
    (p q : PrefixCache) (key : Text) (a : Address) (l : List (Text × Address))
    → (q.heap a).pinned ≡ true
    → ((b : Address) → (p.heap b).pinned ≡ true → (q.heap b).pinned ≡ true)
    → AllPinned p (addresses l)
    → AllPinned q (addresses (put key a l))
unfolding put addresses
AllPinned-put p q key a [] n s h = (n, tt)
AllPinned-put p q key a (e ∷ l) n s h = elim (Bool-cases (same_list e.0 key)) [
  | inl t ↦ rw t (n, AllPinned-keep p q (addresses l) s h.1)
  | inr t ↦ rw t (s e.1 h.0, AllPinned-put p q key a l n s h.1)
]

module _ (key : Text) (tokens pages : List ℕ) (now : ℕ) (p : PrefixCache) where
  grown-AllPinned :
      AllPinned p (addresses p.entries)
      → AllPinned (grown key tokens pages now p) (addresses (grown key tokens pages now p).entries)
  unfolding added update
  grown-AllPinned h =
      AllPinned-put p (grown key tokens pages now p) key p.next p.entries (ground arith)
        (λ b k. ground arith) h

  length-grown :
      IsFresh key p.entries → length (grown key tokens pages now p).entries ≡ length p.entries + 1
  unfolding added update
  length-grown f = length-put key p.next p.entries f

-- Where every entry is pinned, as after the insertions that the runtime makes, a pinned insertion
-- under a new key that can be made evicts nothing: the cache grows by one entry, whatever
-- max_entries says, and every entry is pinned again.
pub insert-AllPinned :
    (blake2b : List ℕ → List ℕ) (now : ℕ) (tokens pages : List ℕ) (p : PrefixCache) (key : Text)
    → AllPinned p (addresses p.entries)
    → make_key blake2b p.block_size tokens ≡ ok key
    → IsFresh key p.entries
    → let q = (insert blake2b now tokens pages true p).1 in
      (length q.entries ≡ length p.entries + 1) × AllPinned q (addresses q.entries)
unfolding insert
insert-AllPinned blake2b now tokens pages p key h e f =
    let q : PrefixCache = added key tokens pages true now p in
    let all : AllPinned q (addresses q.entries) = grown-AllPinned key tokens pages now p h in
    rw (insert, e, evict_to_capacity_none q all) (length-grown key tokens pages now p f, all)
