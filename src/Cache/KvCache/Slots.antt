-- ===== src/Cache/KvCache/Slots.antt =====
-- `slot_mapping` and `metadata_for`: logical positions to physical slots.
use native.Mathlib.Nat.{div-add-mod, mod-lt, div-lt_iff_lt-mul, le-div_iff_mul-le}
use solo_rt.Prelude.{
  ℕ, zero, suc, ◌+◌, ◌*◌, ◌/◌, ◌%◌, ◌≤◌, ◌<◌, ◌≡◌, refl, ap, List, [], ◌∷◌, ◌++◌, map, leb, length,
  count, take, get_or, true, false, some, arith, ok, err, index_error, length-take, range_from,
  length-map, ◌∙◌, ◌==◌, inl, inr, Bool-cases,
}
use solo_rt.Prelude.Sort.{All}
use solo_rt.Cache.KvCache.{
  PagedKvCache, page_size, pages_required, slot_mapping, metadata_for, last_page_len,
}
use solo_rt.Cache.KvCache.Paging.{pages_required_least, lt_of_mul_lt}

-- The physical slot of one position that the table covers: its page's first slot, and its offset in
-- the page.
pub slot : PagedKvCache → List ℕ → ℕ → ℕ
slot c table position =
    get_or table (position / page_size c) 0 * page_size c + position % page_size c

-- Every position lies below `bound`.
abbrev pub AllBelow : ℕ → List ℕ → Type 0
AllBelow bound [] = Unit
AllBelow bound (p ∷ ps) = (p < bound) × AllBelow bound ps

-- A position that the table has room for has a slot, so the map succeeds on such positions and
-- gives each its slot, in order.
pub slot_mapping_lem :
    (c : PagedKvCache) (table positions : List ℕ)
    → 0 < page_size c
    → AllBelow (length table * page_size c) positions
    → slot_mapping c table positions ≡ ok (map (slot c table) positions)
unfolding slot_mapping slot
slot_mapping_lem c table [] h b = refl
slot_mapping_lem c table (p ∷ ps) h b =
    let below : p / page_size c < length table = (div-lt_iff_lt-mul h).1 b.0 in
    let inside : leb (length table) (p / page_size c) ≡ false = ground arith in
    rw (inside, slot_mapping_lem c table ps h b.1)

-- One position past the table makes the whole call raise.
pub slot_mapping_short :
    (c : PagedKvCache) (table before after : List ℕ) (p : ℕ)
    → 0 < page_size c
    → AllBelow (length table * page_size c) before
    → length table * page_size c ≤ p
    → slot_mapping c table (before ++ p ∷ after) ≡ err index_error
unfolding slot_mapping
slot_mapping_short c table [] after p h b out =
    let past : length table ≤ p / page_size c = (le-div_iff_mul-le h).1 out in
    let outside : leb (length table) (p / page_size c) ≡ true = ground arith in rw outside
slot_mapping_short c table (q ∷ before) after p h b out =
    let below : q / page_size c < length table = (div-lt_iff_lt-mul h).1 b.0 in
    let inside : leb (length table) (q / page_size c) ≡ false = ground arith in
    rw (inside, slot_mapping_short c table before after p h b.1 out)

-- No page stands twice in the table.
abbrev pub IsDistinct : List ℕ → Type 0
IsDistinct l = (x : ℕ) → count x l ≤ 1

count-get_or : (l : List ℕ) (i : ℕ) → i < length l → 0 < count (get_or l i 0) l
count-get_or [] i h = absurd (omega arith)
count-get_or (x ∷ l) zero h = ground arith
count-get_or (x ∷ l) (suc i) h = ground (arith, count-get_or l i)

get_or-injective :
    (l : List ℕ) (i j : ℕ)
    → IsDistinct l
    → i < length l
    → j < length l
    → get_or l i 0 ≡ get_or l j 0
    → i ≡ j
get_or-injective [] i j d hi hj e = absurd (omega arith)
get_or-injective (x ∷ l) zero zero d hi hj e = refl
get_or-injective (x ∷ l) zero (suc j) d hi hj e = absurd (ground (arith, d x, count-get_or l j))
get_or-injective (x ∷ l) (suc i) zero d hi hj e = absurd (ground (arith, d x, count-get_or l i))
get_or-injective (x ∷ l) (suc i) (suc j) d hi hj e =
    ap suc (get_or-injective l i j (λ y. ground (arith, d y)) (omega arith) (omega arith) e)

div_mod_unique : (a b r t s : ℕ) → r < s → t < s → a * s + r ≡ b * s + t → (a ≡ b) × (r ≡ t)
div_mod_unique a b r t s hr ht e =
    let lt : a < b + 1 = lt_of_mul_lt a (b + 1) s (omega arith) in
    let gt : b < a + 1 = lt_of_mul_lt b (a + 1) s (omega arith) in
    let same : a ≡ b = omega arith in (same, omega (arith, ap (λ (k : ℕ). k * s) same))

slot-injective :
    (c : PagedKvCache) (table : List ℕ) (p q : ℕ)
    → 0 < page_size c
    → IsDistinct table
    → p < length table * page_size c
    → q < length table * page_size c
    → slot c table p ≡ slot c table q
    → p ≡ q
unfolding slot
slot-injective c table p q h d hp hq e =
    let s = page_size c in
    let (pages, offsets) =
      div_mod_unique (get_or table (p / s) 0) (get_or table (q / s) 0) (p % s) (q % s) s
        (mod-lt p h) (mod-lt q h) e in
    let same : p / s ≡ q / s =
      get_or-injective table (p / s) (q / s) d ((div-lt_iff_lt-mul h).1 hp)
        ((div-lt_iff_lt-mul h).1 hq) pages in
    omega (arith, div-add-mod p s, div-add-mod q s, ap (λ (k : ℕ). s * k) same)

count-map :
    (f : ℕ → ℕ) (x : ℕ) (l : List ℕ)
    → All (λ y. f y ≡ f x → y ≡ x) l
    → count (f x) (map f l) ≡ count x l
count-map f x [] h = refl
count-map f x (y ∷ l) h = ground (arith, h.0, count-map f x l h.1, ap f)

module _ (c : PagedKvCache) (table : List ℕ) (sized : 0 < page_size c) (d : IsDistinct table) where
  injective_behind :
      (p : ℕ) (ps : List ℕ)
      → p < length table * page_size c
      → AllBelow (length table * page_size c) ps
      → All (λ q. slot c table q ≡ slot c table p → q ≡ p) ps
  injective_behind p [] h b = tt
  injective_behind p (q ∷ ps) h b =
      (slot-injective c table q p sized d b.0 h, injective_behind p ps h b.1)

  slots_apart :
      (ps : List ℕ)
      → IsDistinct ps
      → AllBelow (length table * page_size c) ps
      → IsDistinct (map (slot c table) ps)
  slots_apart [] h b y = omega arith
  slots_apart (p ∷ ps) h b y =
      let once : count p ps ≡ 0 = ground (arith, h p) in
      let own : count (slot c table p) (map (slot c table) ps) ≡ 0 =
        count-map (slot c table) p ps (injective_behind p ps b.0 b.1) ∙ once in
      let rest = slots_apart ps (λ x. ground (arith, h x)) b.1 y in
      elim (Bool-cases (slot c table p == y)) [
        | inl e ↦
            let same : slot c table p ≡ y = ground (arith, e) in
            rw e (omega (arith, ap (λ (x : ℕ). count x (map (slot c table) ps)) same, own))
        | inr e ↦ rw e (omega (arith, rest))
      ]

  slot_page :
      (p : ℕ) → p < length table * page_size c → 0 < count (slot c table p / page_size c) table
  unfolding slot
  slot_page p h =
      let s = page_size c in
      let x = slot c table p in
      let (same, _) =
        div_mod_unique (x / s) (get_or table (p / s) 0) (x % s) (p % s) s (mod-lt x sized)
          (mod-lt p sized) (omega (arith, div-add-mod x s)) in
      rw same (count-get_or table (p / s) ((div-lt_iff_lt-mul sized).1 h))

  slots_in_pages :
      (ps : List ℕ)
      → AllBelow (length table * page_size c) ps
      → All (λ x. 0 < count (x / page_size c) table) (map (slot c table) ps)
  slots_in_pages [] b = tt
  slots_in_pages (p ∷ ps) b = (slot_page p b.0, slots_in_pages ps b.1)

  -- With a positive page size, distinct pages in the table and distinct positions that it has room
  -- for, slot_mapping returns as many slots as there are positions, no two of them the same, and
  -- each in a page of the table.
  pub slot_mapping-IsDistinct :
      (positions : List ℕ)
      → IsDistinct positions
      → AllBelow (length table * page_size c) positions
      → (slots : List ℕ) × (slot_mapping c table positions ≡ ok slots)
        × (length slots ≡ length positions)
        × IsDistinct slots
        × All (λ x. 0 < count (x / page_size c) table) slots
  slot_mapping-IsDistinct positions h b = (
    map (slot c table) positions,
    slot_mapping_lem c table positions sized b,
    length-map (slot c table) positions,
    slots_apart positions h b,
    slots_in_pages positions b,
  )

AllBelow-range_from : (a n bound : ℕ) → a + n ≤ bound → AllBelow bound (range_from a n)
AllBelow-range_from a zero bound h = tt
AllBelow-range_from a (suc n) bound h =
    (omega arith, AllBelow-range_from (a + 1) n bound (omega arith))

-- With a positive page size, a table with room for n tokens and a run of positions below n,
-- metadata_for returns exactly the required pages, the fill of the last page and the slot of each
-- position.
pub metadata_for_lem :
    (c : PagedKvCache) (table : List ℕ) (n a k : ℕ)
    → 0 < page_size c
    → n ≤ length table * page_size c
    → a + k ≤ n
    → metadata_for c table n (some (range_from a k))
      ≡ ok (record {
        page_indptr = 0 ∷ pages_required c n ∷ [];
        page_indices = take (pages_required c n) table;
        last_page_len = last_page_len c n ∷ [];
        slot_mapping = map (slot c table) (range_from a k);
      })
unfolding metadata_for
metadata_for_lem c table n a k h room inside =
    let slots =
      slot_mapping_lem c table (range_from a k) h
        (AllBelow-range_from a k (length table * page_size c) (omega arith)) in
    let some_pages : pages_required c n ≤ length table =
      pages_required_least c n (length table) h room in
    let len : length (take (pages_required c n) table) ≡ pages_required c n =
      omega (arith, length-take (pages_required c n) table) in
    rw (slots, len)
