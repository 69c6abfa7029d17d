-- ===== src/Model/CudaGraph/Buckets.antt =====
-- Which captured graph serves a position or a prompt, in src/solort/model/cuda_graph_executor.py.
use solo_rt.Prelude.{
  ℕ, ◌≤◌, ◌<◌, ◌≡◌, refl, sym, ap, inl, inr, true, false, List, [], ◌∷◌, ◌++◌, ltb, leb, is_ok, ok,
  err, stop_iteration, Bool-cases, arith, tests, lt→ltb, ltb→lt,
}
use mathlib.Core.Bool.{true≢false}
use solo_rt.Prelude.Sort.{All}
use solo_rt.Model.CudaGraph.{keep, first_with, buckets, pre_buckets, bucket_for, prefill_bound}

position_bound :
    (max_len pos : ℕ) (sizes : List ℕ)
    → pos < max_len
    → (bound : ℕ) × (first_with (λ b. ltb pos b) (keep (λ b. ltb b max_len) sizes ++ max_len ∷ [])
        ≡ ok bound)
      × (pos < bound)
      × (bound ≤ max_len)
unfolding keep first_with
position_bound max_len pos [] h =
    let e : ltb pos max_len ≡ true = lt→ltb pos max_len h in (max_len, rw e refl, h, omega arith)
position_bound max_len pos (b ∷ sizes) h = elim (Bool-cases (ltb b max_len)) [
  | inr e ↦ rw e (position_bound max_len pos sizes h)
  | inl e ↦ elim (Bool-cases (ltb pos b)) [
    | inl f ↦ (b, rw (e, f) refl, ltb→lt pos b f, omega (arith, ltb→lt b max_len e))
    | inr f ↦ rw (e, f) (position_bound max_len pos sizes h)
  ]
]

-- Every position in the buffers has a graph, whose bound is above the position and inside the
-- buffers.
pub bucket_for_lem :
    (max_len pos : ℕ)
    → pos < max_len
    → (bound : ℕ) × (bucket_for max_len pos ≡ ok bound) × (pos < bound) × (bound ≤ max_len)
unfolding bucket_for buckets
bucket_for_lem max_len pos h =
    position_bound max_len pos (128 ∷ 256 ∷ 512 ∷ 1024 ∷ 2048 ∷ 4096 ∷ []) h

prompt_bound :
    (max_len plen : ℕ) (sizes : List ℕ) (bound : ℕ)
    → first_with (λ b. leb plen b) (keep (λ b. leb b max_len) sizes) ≡ ok bound
    → (plen ≤ bound) × (bound ≤ max_len)
unfolding keep first_with
prompt_bound max_len plen [] bound h = absurd (true≢false (sym (ap is_ok h)))
prompt_bound max_len plen (b ∷ sizes) bound h = elim (Bool-cases (leb b max_len)) [
  | inr e ↦ prompt_bound max_len plen sizes bound (grind (arith, h, e))
  | inl e ↦ elim (Bool-cases (leb plen b)) [
    | inl f ↦ grind (arith, h, e, f)
    | inr f ↦ prompt_bound max_len plen sizes bound (grind (arith, h, e, f))
  ]
]

prompt_unserved :
    (max_len plen : ℕ) (sizes : List ℕ)
    → All (λ b. b < plen) sizes
    → first_with (λ b. leb plen b) (keep (λ b. leb b max_len) sizes) ≡ err stop_iteration
unfolding keep first_with
prompt_unserved max_len plen [] h = refl
prompt_unserved max_len plen (b ∷ sizes) h =
    let e : leb plen b ≡ false = grind (tests, h.0) in
    elim (Bool-cases (leb b max_len)) [
      | inl f ↦ rw (f, e) (prompt_unserved max_len plen sizes h.1)
      | inr f ↦ rw f (prompt_unserved max_len plen sizes h.1)
    ]

-- The prefill graph chosen for a prompt has at least its length and at most that of the buffers;
-- for a prompt of more than 1024 tokens there is none, and the choice raises StopIteration,
-- whatever the length of the buffers.
pub prefill_bound_lem :
    (max_len plen : ℕ)
    → ((bound : ℕ) → prefill_bound max_len plen ≡ ok bound → (plen ≤ bound) × (bound ≤ max_len))
      × (1024 < plen → prefill_bound max_len plen ≡ err stop_iteration)
unfolding prefill_bound pre_buckets
prefill_bound_lem max_len plen = (
  prompt_bound max_len plen (16 ∷ 32 ∷ 64 ∷ 128 ∷ 256 ∷ 512 ∷ 1024 ∷ []),
  λ h. prompt_unserved max_len plen (16 ∷ 32 ∷ 64 ∷ 128 ∷ 256 ∷ 512 ∷ 1024 ∷ []) (omega (arith, h)),
)
