-- ===== src/Cache/PrefixCache/Evict.antt =====
-- `PrefixCache.evict`: which entries go, and which stay.
use solo_rt.Prelude.{
  ℕ, zero, suc, ◌≡◌, inl, inr, ap, sym, ◌∙◌, Bool, true, false, leb, List, [], ◌∷◌, take, drop,
  arith, Bool-cases, ℤ, pos, negsuc,
}
use solo_rt.Prelude.Sort.{All, Has, here, there, All-Has, sort_by, All-sort_by, IsSortedBy}
use solo_rt.Cache.BlockHash.{Text}
use solo_rt.Cache.PrefixCache.{
  PrefixCache, Address, same_list, addresses, pop, is_evictable, select, older, remove_all,
  eviction_order, evict,
}
use solo_rt.Cache.PrefixCache.Match.{same_list_iff}

module _ (p : PrefixCache) where
  abbrev pub stamp : Address → ℕ
  stamp a = (p.heap a).last_access_ts

  pub older_total : (a b : Address) → older p a b ≡ false → older p b a ≡ true
  unfolding older
  older_total a b h = ground arith

  pub older_trans : (a b c : Address) → older p a b ≡ true → older p b c ≡ true → older p a c ≡ true
  unfolding older
  older_trans a b c h k = ground arith

  pub select-All :
      (test : Address → Bool) (l : List Address) → All (λ a. test a ≡ true) (select test l)
  unfolding select
  select-All test [] = tt
  select-All test (a ∷ l) = elim (Bool-cases (test a)) [
    | inl h ↦ rw h (h, select-All test l)
    | inr h ↦ rw h (select-All test l)
  ]

  pub All-select :
      (test : Address → Bool) (P : Address → Type 0) (l : List Address)
      → All (λ a. test a ≡ true → P a) l
      → All P (select test l)
  unfolding select
  All-select test P [] h = tt
  All-select test P (a ∷ l) h = elim (Bool-cases (test a)) [
    | inl e ↦ rw e (h.0 e, All-select test P l h.1)
    | inr e ↦ rw e (All-select test P l h.1)
  ]

module _ {κ} {A : Type 0} (P : A → Type κ) where
  pub All-take : (n : ℕ) (l : List A) → All P l → All P (take n l)
  All-take zero l h = tt
  All-take (suc n) [] h = tt
  All-take (suc n) (x ∷ l) h = (h.0, All-take n l h.1)

  All-drop : (n : ℕ) (l : List A) → All P l → All P (drop n l)
  All-drop zero l h = h
  All-drop (suc n) [] h = tt
  All-drop (suc n) (x ∷ l) h = All-drop n l h.1

pub sorted_split :
    (p : PrefixCache) (n : ℕ) (l : List Address)
    → IsSortedBy (older p) (older_total p) (older_trans p) l
    → All (λ a. All (λ b. leb (stamp p a) (stamp p b) ≡ true) (drop n l)) (take n l)
unfolding older
sorted_split p zero l h = tt
sorted_split p (suc n) [] h = tt
sorted_split p (suc n) (a ∷ l) h =
    (All-drop (λ b. leb (stamp p a) (stamp p b) ≡ true) n l h.0, sorted_split p n l h.1)

-- No entry has the key.
abbrev pub IsFresh : Text → List (Text × Address) → Type 0
IsFresh key entries = All (λ e. same_list e.0 key ≡ false) entries

-- The keys are distinct, and an entry object knows its own.
abbrev pub IsKeyed : PrefixCache → List (Text × Address) → Type 0
IsKeyed p [] = Unit
IsKeyed p ((key, a) ∷ rest) = ((p.heap a).key ≡ key) × IsFresh key rest × IsKeyed p rest

abbrev pub Holds : Text → Address → List (Text × Address) → Type 0
Holds key a entries = Has (λ e. e ≡ (key, a)) entries

pop-Holds :
    (key k : Text) (a : Address) (l : List (Text × Address))
    → same_list k key ≡ false
    → Holds k a l
    → Holds k a (pop key l)
unfolding pop
pop-Holds key k a [] h m = elim m [ ]
pop-Holds key k a (e ∷ l) h (here q) = let s : same_list e.0 key ≡ false = rw q h in rw s (here q)
pop-Holds key k a (e ∷ l) h (there m) = elim (Bool-cases (same_list e.0 key)) [
  | inl s ↦ rw s (pop-Holds key k a l h m)
  | inr s ↦ rw s (there (pop-Holds key k a l h m))
]

same_list_comm : (xs ys : List ℕ) → same_list xs ys ≡ false → same_list ys xs ≡ false
same_list_comm xs ys h = ground (arith, same_list_iff xs ys, same_list_iff ys xs)

pub remove_all-Holds :
    (p : PrefixCache) (removed : List Address) (k : Text) (a : Address) (l : List (Text × Address))
    → All (λ b. same_list k (p.heap b).key ≡ false) removed
    → Holds k a l
    → Holds k a (remove_all p removed l)
unfolding remove_all
remove_all-Holds p [] k a l h m = m
remove_all-Holds p (b ∷ removed) k a l h m =
    remove_all-Holds p removed k a (pop (p.heap b).key l) h.1 (pop-Holds (p.heap b).key k a l h.0 m)

module _ (p : PrefixCache) (k : Text) (a : Address) where
  other_keys :
      (l : List (Text × Address))
      → IsKeyed p l
      → IsFresh k l
      → All (λ b. is_evictable p b ≡ true → same_list k (p.heap b).key ≡ false) (addresses l)
  unfolding addresses
  other_keys [] v f = tt
  other_keys (e ∷ l) v f = (λ _. rw v.0 (same_list_comm e.0 k f.0), other_keys l v.2 f.1)

  pub fresh_ne :
      (key : Text) (l : List (Text × Address))
      → IsFresh key l
      → Holds k a l
      → same_list k key ≡ false
  fresh_ne key l f m =
      let (e, s, q) = All-Has l f m in ap (λ (x : Text × Address). same_list x.0 key) (sym q) ∙ s

  keys_apart :
      (l : List (Text × Address))
      → IsKeyed p l
      → Holds k a l
      → is_evictable p a ≡ false
      → All (λ b. is_evictable p b ≡ true → same_list k (p.heap b).key ≡ false) (addresses l)
  unfolding addresses
  keys_apart [] v m u = tt
  keys_apart (e ∷ l) v (here q) u = (
    λ b. let w : is_evictable p e.1 ≡ false = rw q u in absurd (cc),
    other_keys l v.2 (rw q at v.1),
  )
  keys_apart (e ∷ l) v (there m) u = (λ _. rw v.0 (fresh_ne e.0 l v.1 m), keys_apart l v.2 m u)

  -- An entry that is pinned or referenced stays, under its key, however many are asked for.
  pub evict_keeps :
      (n : ℤ)
      → IsKeyed p p.entries
      → Holds k a p.entries
      → is_evictable p a ≡ false
      → Holds k a (evict n p).1.entries
  unfolding evict eviction_order
  evict_keeps (negsuc n) v m u = m
  evict_keeps (pos n) v m u =
      let P : Address → Type 0 = λ b. same_list k (p.heap b).key ≡ false in
      let l = select (is_evictable p) (addresses p.entries) in
      remove_all-Holds p (take n (sort_by (older p) l)) k a p.entries
        (All-take P n (sort_by (older p) l) (
          All-sort_by (older p) P l
            (All-select p (is_evictable p) P (addresses p.entries) (keys_apart p.entries v m u))))
        m
