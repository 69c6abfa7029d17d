-- ===== src/Cache/PrefixCache/Match.antt =====
-- `PrefixCache.match` finds the longest cached prefix.
use solo_rt.Prelude.{
  ℕ, ◌+◌, ◌≤◌, ◌≡◌, ◌↔◌, ◌⊎◌, inl, inr, refl, Bool, true, Option, none, some, List, [], ◌∷◌, length,
  take, arith,
}
use solo_rt.Prelude.Sort.{All, Has, here, there}
use solo_rt.Cache.PrefixCache.{
  PrefixCache, PrefixMatch, Address, same_list, addresses, update, better, scan, match_prefix,
  found,
}

same_list→eq : (xs ys : List ℕ) → same_list xs ys ≡ true → xs ≡ ys
unfolding same_list
same_list→eq [] [] h = refl
same_list→eq [] (y ∷ ys) h = cc
same_list→eq (x ∷ xs) [] h = cc
same_list→eq (x ∷ xs) (y ∷ ys) h = ground (arith, same_list→eq xs ys)

pub same_list_refl : (xs : List ℕ) → same_list xs xs ≡ true
unfolding same_list
same_list_refl [] = refl
same_list_refl (x ∷ xs) = ground (arith, same_list_refl xs)

pub same_list_iff : (xs ys : List ℕ) → (same_list xs ys ≡ true) ↔ (xs ≡ ys)
same_list_iff xs ys = (same_list→eq xs ys, λ e. rw e (same_list_refl ys))

-- The tokens of the entry at an address are a prefix of the incoming ones.
abbrev pub Fits : PrefixCache → List ℕ → Address → Type 0
Fits p tokens a =
    ((p.heap a).token_count ≤ length tokens)
    × ((p.heap a).token_ids ≡ take (p.heap a).token_count tokens)

abbrev pub OptionFits : PrefixCache → List ℕ → Option Address → Type 0
OptionFits p tokens none = Unit
OptionFits p tokens (some a) = Fits p tokens a

-- The second result is there if the first is, and covers as many tokens.
abbrev pub AtLeast : PrefixCache → Option Address → Option Address → Type 0
AtLeast p none r = Unit
AtLeast p (some a) none = ⊥
AtLeast p (some a) (some b) = (p.heap a).token_count ≤ (p.heap b).token_count

AtLeast-refl : (p : PrefixCache) (r : Option Address) → AtLeast p r r
AtLeast-refl p none = tt
AtLeast-refl p (some a) = omega arith

AtLeast-trans :
    (p : PrefixCache) (r s t : Option Address) → AtLeast p r s → AtLeast p s t → AtLeast p r t
AtLeast-trans p none s t h k = tt
AtLeast-trans p (some a) none t h k = absurd h
AtLeast-trans p (some a) (some b) none h k = absurd k
AtLeast-trans p (some a) (some b) (some c) h k = omega arith

module _ (p : PrefixCache) (tokens : List ℕ) where
  -- The test of a round, without the comparison of lengths.
  fits_test : Address → Bool
  fits_test a = same_list (p.heap a).token_ids (take (p.heap a).token_count tokens)

  better_choice :
      (a : Address) (best : Option Address)
      → (better p tokens a best ≡ best) ⊎ (better p tokens a best ≡ some a)
  unfolding better
  better_choice a none = ground arith
  better_choice a (some b) = ground arith

  better-Fits :
      (a : Address) (best : Option Address)
      → OptionFits p tokens best
      → OptionFits p tokens (better p tokens a best)
  unfolding better
  better-Fits a none h =
      ground (arith, same_list_iff (p.heap a).token_ids (take (p.heap a).token_count tokens))
  better-Fits a (some b) h =
      ground (arith, same_list_iff (p.heap a).token_ids (take (p.heap a).token_count tokens))

  better_grows : (a : Address) (best : Option Address) → AtLeast p best (better p tokens a best)
  unfolding better
  better_grows a none = tt
  better_grows a (some b) = ground arith

  better_covers :
      (a : Address) (best : Option Address)
      → Fits p tokens a
      → AtLeast p (some a) (better p tokens a best)
  unfolding better
  better_covers a none f =
      ground (arith, same_list_iff (p.heap a).token_ids (take (p.heap a).token_count tokens))
  better_covers a (some b) f =
      ground (arith, same_list_iff (p.heap a).token_ids (take (p.heap a).token_count tokens))

  scan-Fits :
      (l : List Address) (best : Option Address)
      → OptionFits p tokens best
      → OptionFits p tokens (scan p tokens l best)
  unfolding scan
  scan-Fits [] best h = h
  scan-Fits (a ∷ l) best h = scan-Fits l (better p tokens a best) (better-Fits a best h)

  scan_grows : (l : List Address) (best : Option Address) → AtLeast p best (scan p tokens l best)
  unfolding scan
  scan_grows [] best = AtLeast-refl p best
  scan_grows (a ∷ l) best =
      AtLeast-trans p best (better p tokens a best) (scan p tokens l (better p tokens a best))
        (better_grows a best) (scan_grows l (better p tokens a best))

  scan_covers :
      (l : List Address) (best : Option Address)
      → All (λ a. Fits p tokens a → AtLeast p (some a) (scan p tokens l best)) l
  unfolding scan
  scan_covers [] best = tt
  scan_covers (a ∷ l) best =
      let next = better p tokens a best in
      (
        λ f.
            AtLeast-trans p (some a) next (scan p tokens l next) (better_covers a best f)
              (scan_grows l next),
        scan_covers l next,
      )

  scan_member :
      (l : List Address) (best : Option Address) (b : Address)
      → scan p tokens l best ≡ some b
      → (best ≡ some b) ⊎ Has (λ a. a ≡ b) l
  unfolding scan
  scan_member [] best b h = inl h
  scan_member (a ∷ l) best b h = elim (scan_member l (better p tokens a best) b h) [
    | inr m ↦ inr (there m)
    | inl e ↦ elim (better_choice a best) [
      | inl same ↦ inl (cc)
      | inr new ↦ inr (here {x = a} (cc))
    ]
  ]

-- What `match` found: the entry is one of the cache whose tokens are a prefix of the incoming
-- ones; no entry that is such a prefix is longer, and if there is one, something was found.
pub record IsLongest (now : ℕ) (tokens : List ℕ) (p : PrefixCache) (m : PrefixMatch)
    (q : PrefixCache) : Type 0 where
  pub fits : OptionFits p tokens m.entry
  pub longest : All (λ a. Fits p tokens a → AtLeast p (some a) m.entry) (addresses p.entries)
  pub member : (b : Address) → m.entry ≡ some b → Has (λ a. a ≡ b) (addresses p.entries)
  pub reported :
      (b : Address)
      → m.entry ≡ some b
      → (m.matched_tokens ≡ (p.heap b).token_count)
        × (q.hits ≡ p.hits + 1)
        × (q.misses ≡ p.misses)
        × (m.pages ≡ (p.heap b).pages)
        × ((q.heap b).ref_count ≡ (p.heap b).ref_count + 1)
        × ((q.heap b).last_access_ts ≡ now)
  pub missed :
      m.entry ≡ none
      → (m.matched_tokens ≡ 0)
        × (m.pages ≡ [])
        × (q.hits ≡ p.hits)
        × (q.misses ≡ p.misses + 1)
        × (q.heap ≡ p.heap)
  pub entries : q.entries ≡ p.entries

found-IsLongest :
    (now : ℕ) (tokens : List ℕ) (p : PrefixCache) (r : Option Address)
    → OptionFits p tokens r
    → All (λ a. Fits p tokens a → AtLeast p (some a) r) (addresses p.entries)
    → ((b : Address) → r ≡ some b → Has (λ a. a ≡ b) (addresses p.entries))
    → IsLongest now tokens p (found now tokens r p).0 (found now tokens r p).1
unfolding found update
found-IsLongest now tokens p none f l m = record {
  fits = tt;
  longest = l;
  member = m;
  reported = λ b e. absurd (cc);
  missed = λ _. (refl, refl, refl, refl, refl);
  entries = refl;
}
found-IsLongest now tokens p (some a) f l m = record {
  fits = f;
  longest = l;
  member = m;
  reported = λ b e.
      let same : a ≡ b = cc in
      rw (← same) (omega arith, refl, refl, refl, ground arith, ground arith);
  missed = λ e. absurd (cc);
  entries = refl;
}

-- PrefixCache.match reports a cached entry whose tokens are a prefix of the prompt and that is at
-- least as long as every other such entry, with its pages and its token count, and counts one hit,
-- no miss and a reference; it reports none, counts one miss and no hit and changes no entry exactly
-- if no entry is a prefix.
pub match_prefix-IsLongest :
    (now : ℕ) (tokens : List ℕ) (p : PrefixCache)
    → IsLongest now tokens p (match_prefix now tokens p).0 (match_prefix now tokens p).1
unfolding match_prefix
match_prefix-IsLongest now tokens p =
    let r = scan p tokens (addresses p.entries) none in
    found-IsLongest now tokens p r (scan-Fits p tokens (addresses p.entries) none tt)
      (scan_covers p tokens (addresses p.entries) none)
      (λ b e. elim (scan_member p tokens (addresses p.entries) none b e) [
        | inl h ↦ absurd (cc)
        | inr h ↦ h
      ])
