-- ===== src/Cache/PrefixCache/Insert.antt =====
-- `PrefixCache.insert`, and the invariant that every operation keeps.
use solo_rt.Prelude.{
  ℕ, ◌+◌, ◌-◌, ◌≤◌, ◌<◌, ◌≡◌, inl, inr, refl, ap, sym, ◌∙◌, Bool, true, false, Option, none, some,
  List, [], ◌∷◌, ◌==◌, length, take, arith, Bool-cases, ℤ, pos, negsuc,
}
use solo_rt.Cache.BlockHash.{Text}
use solo_rt.Cache.PrefixCache.{
  PrefixCache, PrefixCacheEntry, Address, same_list, addresses, put, pop, update, remove_all,
  eviction_order, evict, evict_to_capacity, added, match_prefix, found, release, scan,
}
use solo_rt.Cache.PrefixCache.Match.{same_list_iff}
use solo_rt.Cache.PrefixCache.Evict.{IsFresh, IsKeyed}

-- An entry object made by the cache, filed under its own key, with its true length.
abbrev pub IsEntry : PrefixCache → Text × Address → Type 0
IsEntry p e =
    (e.1 < p.next)
    × ((p.heap e.1).key ≡ e.0)
    × ((p.heap e.1).token_count ≡ length (p.heap e.1).token_ids)

abbrev pub AreEntries : PrefixCache → List (Text × Address) → Type 0
AreEntries p [] = Unit
AreEntries p (e ∷ rest) = IsEntry p e × IsFresh e.0 rest × AreEntries p rest

pub record IsWellFormed (p : PrefixCache) : Type 0 where
  pub filed : AreEntries p p.entries

pub AreEntries-IsKeyed :
    (p : PrefixCache) (l : List (Text × Address)) → AreEntries p l → IsKeyed p l
AreEntries-IsKeyed p [] h = tt
AreEntries-IsKeyed p (e ∷ l) h = (h.0.1, h.1, AreEntries-IsKeyed p l h.2)

IsFresh-pop : (key k : Text) (l : List (Text × Address)) → IsFresh k l → IsFresh k (pop key l)
unfolding pop
IsFresh-pop key k [] h = tt
IsFresh-pop key k (e ∷ l) h = elim (Bool-cases (same_list e.0 key)) [
  | inl s ↦ rw s (IsFresh-pop key k l h.1)
  | inr s ↦ rw s (h.0, IsFresh-pop key k l h.1)
]

AreEntries-pop :
    (p : PrefixCache) (key : Text) (l : List (Text × Address))
    → AreEntries p l
    → AreEntries p (pop key l)
unfolding pop
AreEntries-pop p key [] h = tt
AreEntries-pop p key (e ∷ l) h = elim (Bool-cases (same_list e.0 key)) [
  | inl s ↦ rw s (AreEntries-pop p key l h.2)
  | inr s ↦ rw s (h.0, IsFresh-pop key e.0 l h.1, AreEntries-pop p key l h.2)
]

AreEntries-remove_all :
    (p : PrefixCache) (removed : List Address) (l : List (Text × Address))
    → AreEntries p l
    → AreEntries p (remove_all p removed l)
unfolding remove_all
AreEntries-remove_all p [] l h = h
AreEntries-remove_all p (b ∷ removed) l h =
    AreEntries-remove_all p removed (pop (p.heap b).key l) (AreEntries-pop p (p.heap b).key l h)

-- The entries stay entries where the heap grows and their own objects keep key and tokens.
abbrev Agree : PrefixCache → PrefixCache → Address → Type 0
Agree p q a =
    ((q.heap a).key ≡ (p.heap a).key)
    × ((q.heap a).token_count ≡ (p.heap a).token_count)
    × ((q.heap a).token_ids ≡ (p.heap a).token_ids)

AreEntries-Agree :
    (p q : PrefixCache) (l : List (Text × Address))
    → p.next ≤ q.next
    → ((a : Address) → a < p.next → Agree p q a)
    → AreEntries p l
    → AreEntries q l
AreEntries-Agree p q [] g h v = tt
AreEntries-Agree p q (e ∷ l) g h v =
    let (k, c, t) = h e.1 v.0.0 in
    (
      (omega (arith, v.0.0), k ∙ v.0.1, c ∙ v.0.2 ∙ ap length (sym t)),
      v.1,
      AreEntries-Agree p q l g h v.2,
    )

same_list_self : (key : Text) → same_list key key ≡ true
same_list_self key = (same_list_iff key key).1 refl

IsFresh-put :
    (key k : Text) (a : Address) (l : List (Text × Address))
    → same_list key k ≡ false
    → IsFresh k l
    → IsFresh k (put key a l)
unfolding put
IsFresh-put key k a [] n h = (n, tt)
IsFresh-put key k a (e ∷ l) n h = elim (Bool-cases (same_list e.0 key)) [
  | inl s ↦ rw s (h.0, h.1)
  | inr s ↦ rw s (h.0, IsFresh-put key k a l n h.1)
]

flip_same : (xs ys : Text) → same_list xs ys ≡ false → same_list ys xs ≡ false
flip_same xs ys h = ground (arith, same_list_iff xs ys, same_list_iff ys xs)

AreEntries-put :
    (q : PrefixCache) (key : Text) (a : Address) (l : List (Text × Address))
    → IsEntry q (key, a)
    → AreEntries q l
    → AreEntries q (put key a l)
unfolding put
AreEntries-put q key a [] n h = (n, tt, tt)
AreEntries-put q key a (e ∷ l) n h = elim (Bool-cases (same_list e.0 key)) [
  | inl s ↦
      let same : e.0 ≡ key = (same_list_iff e.0 key).0 s in
      rw s ((n.0, n.1 ∙ sym same, n.2), h.1, h.2)
  | inr s ↦
      rw s (h.0, IsFresh-put key e.0 a l (flip_same e.0 key s) h.1, AreEntries-put q key a l n h.2)
]

evict-IsWellFormed : (n : ℤ) (p : PrefixCache) → IsWellFormed p → IsWellFormed (evict n p).1
unfolding evict
evict-IsWellFormed (negsuc n) p v = v
evict-IsWellFormed (pos n) p v = record {
  filed =
      AreEntries-Agree p (record p { entries = remove_all p (take n (eviction_order p)) p.entries })
        (remove_all p (take n (eviction_order p)) p.entries) (omega arith)
        (λ a h. (refl, refl, refl))
        (AreEntries-remove_all p (take n (eviction_order p)) p.entries v.filed);
}

pub evict_to_capacity-IsWellFormed :
    (p : PrefixCache) → IsWellFormed p → IsWellFormed (evict_to_capacity p)
unfolding evict_to_capacity
evict_to_capacity-IsWellFormed p v = elim (Bool-cases (length p.entries - p.max_entries == 0)) [
  | inl fits ↦ rw fits v
  | inr over ↦ rw over (evict-IsWellFormed (pos (length p.entries - p.max_entries)) p v)
]

-- Writing an entry object that keeps its key and tokens.
update-IsWellFormed :
    (a : Address) (e : PrefixCacheEntry) (p q : PrefixCache)
    → q.next ≡ p.next
    → q.heap ≡ p.heap
    → q.entries ≡ p.entries
    → e.key ≡ (p.heap a).key
    → e.token_count ≡ (p.heap a).token_count
    → e.token_ids ≡ (p.heap a).token_ids
    → IsWellFormed p
    → IsWellFormed (update a e q)
unfolding update
update-IsWellFormed a e p q sn sh se k c t v = record {
  filed = rw se (
      AreEntries-Agree p (update a e q) p.entries (omega (arith, sn))
        (λ b h. (
          ground (arith, ap (λ (g : Address → PrefixCacheEntry). g b) sh),
          ground (arith, ap (λ (g : Address → PrefixCacheEntry). g b) sh),
          ground (arith, ap (λ (g : Address → PrefixCacheEntry). g b) sh),
        ))
        v.filed);
}

pub release-IsWellFormed :
    (a : Option Address) (p : PrefixCache) → IsWellFormed p → IsWellFormed (release a p)
unfolding release
release-IsWellFormed none p v = v
release-IsWellFormed (some a) p v =
    update-IsWellFormed a (record (p.heap a) { ref_count = (p.heap a).ref_count - 1 }) p p refl refl
      refl refl refl refl v

found-IsWellFormed :
    (now : ℕ) (tokens : List ℕ) (r : Option Address) (p : PrefixCache)
    → IsWellFormed p
    → IsWellFormed (found now tokens r p).1
unfolding found
found-IsWellFormed now tokens none p v = record {
  filed =
      AreEntries-Agree p (found now tokens none p).1 p.entries (omega arith)
        (λ a h. (refl, refl, refl)) v.filed;
}
found-IsWellFormed now tokens (some a) p v =
    update-IsWellFormed a
      (record (p.heap a) { ref_count = (p.heap a).ref_count + 1; last_access_ts = now }) p
      (record p { hits = p.hits + 1 }) refl refl refl refl refl refl v

pub match_prefix-IsWellFormed :
    (now : ℕ) (tokens : List ℕ) (p : PrefixCache)
    → IsWellFormed p
    → IsWellFormed (match_prefix now tokens p).1
unfolding match_prefix
match_prefix-IsWellFormed now tokens p v =
    found-IsWellFormed now tokens (scan p tokens (addresses p.entries) none) p v

pub added-IsWellFormed :
    (key : Text) (tokens pages : List ℕ) (pinned : Bool) (now : ℕ) (p : PrefixCache)
    → IsWellFormed p
    → IsWellFormed (added key tokens pages pinned now p)
unfolding added update
added-IsWellFormed key tokens pages pinned now p v =
    let q = added key tokens pages pinned now p in
    record {
      filed =
          AreEntries-put q key p.next p.entries (omega arith, ground arith, ground arith)
            (AreEntries-Agree p q p.entries (omega arith)
              (λ a h. (ground arith, ground arith, ground arith)) v.filed);
    }
