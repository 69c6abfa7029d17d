-- ===== src/Backend/FlashInfer/Masks.antt =====
-- What each query row of the fallback may see.
use solo_rt.Prelude.{
  ℕ, zero, suc, ◌+◌, ◌-◌, ◌≤◌, ◌<◌, ◌≡◌, ap, ◌∙◌, inl, inr, Bool, true, false, not, none, some, [],
  map, if◌then◌else◌, leb, ◌==◌, get_or, range_from, Bool-cases, arith,
}
use solo_rt.Backend.FlashInfer.{Tensor, SdpaCall, sdpa_call, right_aligned_mask}

get_or-map-range_from :
    {A : Type 0} (f : ℕ → A) (s n i k : ℕ) (d : A)
    → i < n
    → s + i ≡ k
    → get_or (map f (range_from s n)) i d ≡ f k
get_or-map-range_from f s zero i k d h e = elim h [ ]
get_or-map-range_from f s (suc n) zero k d h e = ap f (omega (arith, e))
get_or-map-range_from f s (suc n) (suc i) k d h e =
    get_or-map-range_from f (s + 1) n i k d (omega (arith, h)) (omega (arith, e))

-- Whether torch lets row i see column j: a mask says so for each entry, `is_causal=True` is the
-- triangle from the top left corner, and with neither a row sees all.
unfoldable pub sees : {F : Type 0} → SdpaCall F → ℕ → ℕ → Bool
sees c i j =
    if c.is_causal
    then leb j i
    else elim c.attn_mask [ none ↦ true | some mask ↦ get_or (get_or mask i []) j false ]

mask_entry :
    (q_len kv_len i j : ℕ)
    → i < q_len
    → j < kv_len
    → get_or (get_or (right_aligned_mask q_len kv_len) i []) j false ≡ leb (j + q_len) (i + kv_len)
unfolding right_aligned_mask
mask_entry q_len kv_len i j h k =
    ap (λ row. get_or row j false)
      (get_or-map-range_from
        (λ q_idx. map (λ k_idx. leb (k_idx + q_len) (q_idx + kv_len)) (range_from 0 kv_len)) 0 q_len
        i i [] h (omega arith))
    ∙ get_or-map-range_from (λ k_idx. leb (k_idx + q_len) (i + kv_len)) 0 kv_len j j false k
        (omega arith)

shifted :
    (q_len kv_len i j : ℕ)
    → q_len ≤ kv_len
    → leb (j + q_len) (i + kv_len) ≡ leb j (i + (kv_len - q_len))
shifted q_len kv_len i j h = ground (arith, h)

-- For a query that is the last part of the sequence, whether it is one token, the whole sequence or
-- a part between, and reading torch's mask arguments as torch documents them, row i of the
-- fallback's call sees exactly the keys up to its own position: column j if and only if j is at
-- most i plus the number of tokens before the query.
pub sdpa_call-sees :
    {F : Type 0} (query key value : Tensor) (scale : F) (i j : ℕ)
    → i < query.tokens
    → j < key.tokens
    → query.tokens ≤ key.tokens
    → sees (sdpa_call query key value scale (not (query.tokens == 1))) i j
      ≡ leb j (i + (key.tokens - query.tokens))
unfolding sees sdpa_call
sdpa_call-sees query key value scale i j h k fits = elim (Bool-cases (query.tokens == 1)) [
  | inl one ↦ rw one (ground (arith, h, k, one, fits))
  | inr more ↦ elim (Bool-cases (query.tokens == key.tokens)) [
    | inl square ↦ rw (more, square) (ground (arith, square))
    | inr longer ↦
        rw (more, longer)
          (mask_entry query.tokens key.tokens i j h k ∙ shifted query.tokens key.tokens i j fits)
  ]
]
