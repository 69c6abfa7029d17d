-- ===== src/Backend/FlashInfer/Heads.antt =====
-- The heads of the keys and values after `repeat_interleave`.
use solo_rt.Prelude.{
  ℕ, zero, suc, ◌+◌, ◌*◌, ◌/◌, ◌%◌, ◌<◌, ◌≡◌, refl, ap, ◌∙◌, inl, inr, true, some, List, [], ◌∷◌,
  ◌++◌, ◌==◌, length, get_elem?, replicate, length-append, length-replicate, ok, Bool-cases, arith,
}
use native.Mathlib.Nat.{div-add-mod, div_self}
use solo_rt.Backend.FlashInfer.{Tensor, repeat_interleave, expand_heads}

module _ {A : Type 0} where
  length-repeat_interleave :
      (groups : ℕ) (xs : List A) → length (repeat_interleave groups xs) ≡ groups * length xs
  unfolding repeat_interleave
  length-repeat_interleave groups [] = omega arith
  length-repeat_interleave groups (x ∷ xs) = omega (
    arith,
    length-append (replicate groups x) (repeat_interleave groups xs),
    length-replicate groups x,
    length-repeat_interleave groups xs,
  )

  get-replicate :
      (n i : ℕ) (x : A) (ys : List A) → i < n → get_elem? (replicate n x ++ ys) i ≡ some x
  get-replicate zero i x ys h = elim h [ ]
  get-replicate (suc n) zero x ys h = refl
  get-replicate (suc n) (suc i) x ys h = get-replicate n i x ys (omega (arith, h))

  get-past :
      (n i k : ℕ) (x : A) (ys : List A)
      → k ≡ n + i
      → get_elem? (replicate n x ++ ys) k ≡ get_elem? ys i
  get-past zero i k x ys e = ap (get_elem? ys) (e ∙ omega arith)
  get-past (suc n) i zero x ys e = ground (arith, e)
  get-past (suc n) i (suc k) x ys e = get-past n i k x ys (omega (arith, e))

  -- Copy r of head k.
  get-repeat_interleave :
      (groups k r i : ℕ) (xs : List A)
      → r < groups
      → i ≡ groups * k + r
      → get_elem? (repeat_interleave groups xs) i ≡ get_elem? xs k
  unfolding repeat_interleave
  get-repeat_interleave groups k r i [] h e = refl
  get-repeat_interleave groups zero r i (x ∷ xs) h e =
      get-replicate groups i x (repeat_interleave groups xs) (omega (arith, h, e))
  get-repeat_interleave groups (suc k) r i (x ∷ xs) h e =
      get-past groups (groups * k + r) i x (repeat_interleave groups xs) (e ∙ omega arith)
      ∙ get-repeat_interleave groups k r (groups * k + r) xs h refl

same_head :
    (query_heads n k r : ℕ)
    → (query_heads == n) ≡ true
    → 0 < n
    → r < query_heads / n
    → query_heads / n * k + r ≡ k
same_head query_heads n k r same h less =
    let e : query_heads ≡ n = ground (arith, same) in
    let one : query_heads / n ≡ 1 = ap (λ m. m / n) e ∙ div_self h in
    ap (λ g. g * k + r) one ∙ omega (arith, one, less)

-- For a key tensor with heads and a positive number of query heads that they divide, the expansion
-- does not raise, the result has as many heads as the query, and each key head stands at the
-- consecutive places of its group of query heads.
pub expand_heads_lem :
    (query_heads : ℕ) (t : Tensor)
    → 0 < length t.heads
    → 0 < query_heads
    → query_heads % length t.heads ≡ 0
    → (u : Tensor) × (expand_heads query_heads t ≡ ok u)
      × (length u.heads ≡ query_heads)
      × ((k r : ℕ)
          → r < query_heads / length t.heads
          → get_elem? u.heads (query_heads / length t.heads * k + r) ≡ get_elem? t.heads k)
unfolding expand_heads
expand_heads_lem query_heads t some_heads _ even =
    let n = length t.heads in
    let groups = query_heads / n in
    let whole : n * groups ≡ query_heads = omega (arith, div-add-mod query_heads n, even) in
    elim (Bool-cases (query_heads == n)) [
      | inl same ↦ (
        t,
        rw (expand_heads, same) refl,
        ground (arith, same),
        λ k r h. ap (get_elem? t.heads) (same_head query_heads n k r same some_heads h),
      )
      | inr more ↦ (
        record t { heads = repeat_interleave groups t.heads },
        rw (expand_heads, more) (ground (arith, some_heads, even)),
        length-repeat_interleave groups t.heads ∙ omega (arith, whole),
        λ k r h. get-repeat_interleave groups k r (groups * k + r) t.heads h refl,
      )
    ]
