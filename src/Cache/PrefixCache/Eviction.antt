-- ===== src/Cache/PrefixCache/Eviction.antt =====
-- `PrefixCache.evict`: what it returns, and the cache that it leaves.
use solo_rt.Prelude.{
  ℕ, zero, suc, ◌≤◌, ◌<◌, ◌≡◌, refl, ◌↔◌, ◌⊎◌, inl, inr, ap, sym, ◌∙◌, true, false, List, [], ◌∷◌,
  length, take, drop, arith, Bool-cases, length-take, pos,
}
use mathlib.Core.Bool.{true≢false}
use solo_rt.Prelude.Sort.{
  All, Has, here, there, All-Has, All-sort_by, Has-sort_by, sort_by-IsSortedBy,
}
use solo_rt.Cache.BlockHash.{Text}
use solo_rt.Cache.PrefixCache.{
  PrefixCache, Address, same_list, addresses, pop, is_evictable, select, older, remove_all,
  eviction_order, evict,
}
use solo_rt.Cache.PrefixCache.Match.{same_list_iff, same_list_refl}
use solo_rt.Cache.PrefixCache.Evict.{
  older_total, older_trans, select-All, All-select, All-take, sorted_split, IsKeyed, Holds,
  fresh_ne, remove_all-Holds,
}

-- Nothing holds on to the entry at an address.
abbrev pub IsUnused : PrefixCache → Address → Type 0
IsUnused p a = ((p.heap a).pinned ≡ false) × ((p.heap a).ref_count ≡ 0)

-- What `evict` returns, and the cache that it leaves: exactly the other entries, and of those that
-- are not in use none that is older than one that went, and none at all if fewer went than asked.
pub record IsEviction (target : ℕ) (p : PrefixCache) (removed : List Address) (q : PrefixCache)
    : Type 0 where
  pub bounded : length removed ≤ target
  pub unused : All (IsUnused p) removed
  pub cached : All (λ a. (k : Text) × Holds k a p.entries) removed
  pub left :
      (k : Text) (a : Address)
      → Holds k a q.entries ↔ (Holds k a p.entries × (¬ Has (λ b. b ≡ a) removed))
  pub oldest :
      (k : Text) (a b : Address)
      → Has (λ c. c ≡ a) removed
      → Holds k b q.entries
      → IsUnused p b
      → (p.heap a).last_access_ts ≤ (p.heap b).last_access_ts
  pub enough :
      length removed < target → (k : Text) (b : Address) → Holds k b q.entries → ¬ IsUnused p b
  pub others : q ≡ record p { entries = q.entries }

evictable_iff : (p : PrefixCache) (a : Address) → (is_evictable p a ≡ true) ↔ IsUnused p a
unfolding is_evictable
evictable_iff p a = (λ h. (ground (arith, h), ground (arith, h)), λ h. ground (arith, h.0, h.1))

Has-take_drop {κ} :
    {A : Type 0} (P : A → Type κ) (n : ℕ) (l : List A)
    → Has P l
    → Has P (take n l) ⊎ Has P (drop n l)
Has-take_drop P zero l m = inr m
Has-take_drop P (suc n) [] m = elim m [ ]
Has-take_drop P (suc n) (x ∷ l) (here h) = inl (here h)
Has-take_drop P (suc n) (x ∷ l) (there m) = elim (Has-take_drop P n l m) [
  | inl h ↦ inl (there h)
  | inr h ↦ inr h
]

Has-drop-length {κ} :
    {A : Type 0} (P : A → Type κ) (n : ℕ) (l : List A) → Has P (drop n l) → n < length l
Has-drop-length P zero [] m = elim m [ ]
Has-drop-length P (suc n) [] m = elim m [ ]
Has-drop-length P zero (x ∷ l) m = omega arith
Has-drop-length P (suc n) (x ∷ l) m = omega (arith, Has-drop-length P n l m)

pop-Holds-back :
    (key k : Text) (a : Address) (l : List (Text × Address))
    → Holds k a (pop key l)
    → Holds k a l × (same_list k key ≡ false)
unfolding pop
pop-Holds-back key k a [] m = elim m [ ]
pop-Holds-back key k a (e ∷ l) m = elim (Bool-cases (same_list e.0 key)) [
  | inl s ↦ let (h, d) = pop-Holds-back key k a l (rw s at m) in (there h, d)
  | inr s ↦ elim (rw s at m) [
    | here q ↦ (here q, ap (λ (x : Text × Address). same_list x.0 key) (sym q) ∙ s)
    | there m' ↦ let (h, d) = pop-Holds-back key k a l m' in (there h, d)
  ]
]

mapped {ι κ} :
    {A : Type 0} {P : A → Type ι} {Q : A → Type κ}
    → ((a : A) → P a → Q a)
    → (l : List A) → All P l
    → All Q l
mapped f [] h = tt
mapped f (a ∷ l) h = (f a h.0, mapped f l h.1)

module _ (p : PrefixCache) where
  remove_all-Holds-back :
      (removed : List Address) (k : Text) (a : Address) (l : List (Text × Address))
      → Holds k a (remove_all p removed l)
      → Holds k a l × All (λ b. same_list k (p.heap b).key ≡ false) removed
  unfolding remove_all
  remove_all-Holds-back [] k a l m = (m, tt)
  remove_all-Holds-back (b ∷ removed) k a l m =
      let (h, all) = remove_all-Holds-back removed k a (pop (p.heap b).key l) m in
      let (h', d) = pop-Holds-back (p.heap b).key k a l h in (h', (d, all))

  held_key :
      (k : Text) (a : Address) (l : List (Text × Address))
      → IsKeyed p l
      → Holds k a l
      → (p.heap a).key ≡ k
  held_key k a [] v m = elim m [ ]
  held_key k a (e ∷ l) v (here q) = rw q at v.0
  held_key k a (e ∷ l) v (there m) = held_key k a l v.2 m

  same_address :
      (k : Text) (a b : Address) (l : List (Text × Address))
      → IsKeyed p l
      → Holds k a l
      → Holds k b l
      → a ≡ b
  same_address k a b [] v m n = elim m [ ]
  same_address k a b (e ∷ l) v (here q) (here r) = ap (λ (x : Text × Address). x.1) (sym q ∙ r)
  same_address k a b (e ∷ l) v (here q) (there n) =
      absurd (true≢false (sym (same_list_refl k) ∙ fresh_ne p k b k l (rw q at v.1) n))
  same_address k a b (e ∷ l) v (there m) (here r) =
      absurd (true≢false (sym (same_list_refl k) ∙ fresh_ne p k a k l (rw r at v.1) m))
  same_address k a b (e ∷ l) v (there m) (there n) = same_address k a b l v.2 m n

  -- An address that an entry of the cache stands at.
  abbrev Cached : Address → Type 0
  Cached a = (k : Text) × Holds k a p.entries

  addresses-Cached :
      (l : List (Text × Address))
      → ((k : Text) (a : Address) → Holds k a l → Holds k a p.entries)
      → All Cached (addresses l)
  unfolding addresses
  addresses-Cached [] h = tt
  addresses-Cached ((k, a) ∷ l) h =
      ((k, h k a (here refl)), addresses-Cached l (λ k' a' m. h k' a' (there m)))

  other_keys_of :
      (k : Text) (a : Address) (removed : List Address)
      → IsKeyed p p.entries
      → Holds k a p.entries
      → All Cached removed
      → (¬ Has (λ b. b ≡ a) removed)
      → All (λ b. same_list k (p.heap b).key ≡ false) removed
  other_keys_of k a [] v m c out = tt
  other_keys_of k a (b ∷ removed) v m ((kb, mb), c) out = (
    elim (Bool-cases (same_list k (p.heap b).key)) [
      | inr s ↦ s
      | inl s ↦
          let key : kb ≡ k =
            sym (held_key kb b p.entries v mb) ∙ sym ((same_list_iff k (p.heap b).key).0 s) in
          absurd (out (here (same_address k b a p.entries v (rw key at mb) m)))
    ],
    other_keys_of k a removed v m c (λ h. out (there h)),
  )

  in_order :
      (k : Text) (b : Address) (l : List (Text × Address))
      → Holds k b l
      → is_evictable p b ≡ true
      → Has (λ c. c ≡ b) (select (is_evictable p) (addresses l))
  unfolding select addresses
  in_order k b [] m u = elim m [ ]
  in_order k b (e ∷ l) (here q) u =
      let w : is_evictable p e.1 ≡ true = rw q u in rw w (here (ap (λ (x : Text × Address). x.1) q))
  in_order k b (e ∷ l) (there m) u = elim (Bool-cases (is_evictable p e.1)) [
    | inl w ↦ rw w (there (in_order k b l m u))
    | inr w ↦ rw w (in_order k b l m u)
  ]

  left_lem :
      (removed : List Address) (k : Text) (a : Address)
      → IsKeyed p p.entries
      → All Cached removed
      → Holds k a (remove_all p removed p.entries)
        ↔ (Holds k a p.entries × (¬ Has (λ b. b ≡ a) removed))
  left_lem removed k a v cached = (
    λ m.
        let (held, apart) = remove_all-Holds-back removed k a p.entries m in
        (
          held,
          λ out.
              let (b, d, e) = All-Has removed apart out in
              let key : (p.heap b).key ≡ k =
                ap (λ c. (p.heap c).key) e ∙ held_key k a p.entries v held in
              absurd (true≢false (sym (same_list_refl k) ∙ ap (same_list k) (sym key) ∙ d)),
        ),
    λ h. remove_all-Holds p removed k a p.entries (other_keys_of k a removed v h.0 cached h.1) h.0,
  )

  behind :
      (n : ℕ) (k : Text) (b : Address)
      → IsKeyed p p.entries
      → All Cached (take n (eviction_order p))
      → Holds k b (remove_all p (take n (eviction_order p)) p.entries)
      → IsUnused p b
      → Has (λ c. c ≡ b) (drop n (eviction_order p))
  unfolding eviction_order
  behind n k b v cached m u =
      let (held, out) = (left_lem (take n (eviction_order p)) k b v cached).0 m in
      let among = in_order k b p.entries held ((evictable_iff p b).1 u) in
      let l = select (is_evictable p) (addresses p.entries) in
      elim (Has-take_drop (λ c. c ≡ b) n (eviction_order p)
        (Has-sort_by (older p) (λ c. c ≡ b) l among)) [ inl h ↦ absurd (out h) | inr h ↦ h ]

  ordered :
      (n : ℕ) (a b : Address)
      → Has (λ c. c ≡ a) (take n (eviction_order p))
      → Has (λ c. c ≡ b) (drop n (eviction_order p))
      → (p.heap a).last_access_ts ≤ (p.heap b).last_access_ts
  unfolding eviction_order
  ordered n a b before after =
      let l = select (is_evictable p) (addresses p.entries) in
      let sorted =
        sorted_split p n (eviction_order p)
          (sort_by-IsSortedBy (older p) (older_total p) (older_trans p) l) in
      let (x, later, e) = All-Has (take n (eviction_order p)) sorted before in
      let (y, test, d) = All-Has (drop n (eviction_order p)) later after in
      rw (← e, ← d) (ground (arith, test))

  taken :
      (n : ℕ)
      → All Cached (take n (eviction_order p)) × All (IsUnused p) (take n (eviction_order p))
  unfolding eviction_order
  taken n =
      let l = select (is_evictable p) (addresses p.entries) in
      (
        All-take Cached n (eviction_order p) (
            All-sort_by (older p) Cached l (
              All-select p (is_evictable p) Cached (addresses p.entries) (
                mapped (λ a c. λ (_ : is_evictable p a ≡ true). c) (addresses p.entries)
                  (addresses-Cached p.entries (λ k a m. m))))),
        All-take (IsUnused p) n (eviction_order p) (
            All-sort_by (older p) (IsUnused p) l (
              mapped (λ a. (evictable_iff p a).0) l
                (select-All p (is_evictable p) (addresses p.entries)))),
      )

-- Where each entry stands under its own key and the keys are distinct, evict n returns at most n
-- entries of the cache, each unpinned and unreferenced, and leaves exactly the entries that it does
-- not return, with the same counters: none of those that are unpinned and unreferenced was used
-- before one that went, and if fewer than n went, there are none.
pub evict-IsEviction :
    (n : ℕ) (p : PrefixCache)
    → IsKeyed p p.entries
    → IsEviction n p (evict (pos n) p).0 (evict (pos n) p).1
unfolding evict
evict-IsEviction n p v =
    let order = eviction_order p in
    let (cached, unused) = taken p n in
    record {
      bounded = omega (arith, length-take n order);
      unused = unused;
      cached = cached;
      left = λ k a. left_lem p (take n order) k a v cached;
      oldest = λ k a b before m u. ordered p n a b before (behind p n k b v cached m u);
      enough = λ few k b m u. absurd (
          omega (
            arith,
            few,
            length-take n order,
            Has-drop-length (λ c. c ≡ b) n order (behind p n k b v cached m u),
          ));
      others = refl;
    }
