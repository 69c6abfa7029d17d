-- ===== src/Core/Scheduler/Prefill.antt =====
-- A prompt goes to the executor in chunks, each token once.
use solo_rt.Prelude.{
  ℕ, zero, suc, ◌+◌, ◌≤◌, ◌<◌, ◌≡◌, ◌≢◌, sym, ap, ◌∙◌, inl, inr, true, false, Option, none, some,
  List, [], ◌∷◌, ◌++◌, length, drop, take-append-drop, drop-drop, drop-all, length-take,
  length-drop, if◌then◌else◌, Bool-cases, arith,
}
use mathlib.Core.List.{flatten}
use solo_rt.Prelude.Sort.{All}
use solo_rt.Core.Sequence.{
  Sequence, cancelled, prefill, remaining_prefill_tokens, is_prefill_complete,
}
use solo_rt.Core.Scheduler.{chunk_size, budget_or, next_chunk, advance}

-- For a positive limit and a sequence whose prefill is not complete, a chunk is not empty, not
-- longer than the limit nor than what remains of the prompt, and not longer than a budget that is
-- not 0.
pub chunk_size_bounds :
    (max : ℕ) (b : Option ℕ) (q : Sequence)
    → 0 < max
    → is_prefill_complete q ≡ false
    → (0 < chunk_size max b q)
      × (chunk_size max b q ≤ max)
      × (chunk_size max b q ≤ remaining_prefill_tokens q)
      × ((budget : ℕ) → b ≡ some (suc budget) → chunk_size max b q ≤ suc budget)
unfolding chunk_size budget_or is_prefill_complete
chunk_size_bounds max none q m h =
    (ground (arith, m, h), omega arith, omega arith, λ budget e. ground (arith, e))
chunk_size_bounds max (some zero) q m h =
    (ground (arith, m, h), omega arith, omega arith, λ budget e. ground (arith, e))
chunk_size_bounds max (some (suc n)) q m h =
    (ground (arith, m, h), omega arith, omega arith, λ budget e. ground (arith, e))

-- The sequence alone on the scheduler: the chunks it is given, and what it is after them.
pub prefill_run : ℕ → ℕ → Option ℕ → ℕ → Sequence → List (List ℕ) × Sequence
prefill_run now max b zero q = ([], q)
prefill_run now max b (suc fuel) q =
    let chunk = next_chunk max b q in
    let (rest, last) = prefill_run now max b fuel (advance now prefill (length chunk) q) in
    if is_prefill_complete q then ([], q) else (chunk ∷ rest, last)

unfoldable start : Sequence → ℕ
start q = q.num_cached_tokens + q.num_scheduled_tokens

pub length-next_chunk :
    (max : ℕ) (b : Option ℕ) (q : Sequence)
    → q.num_prompt_tokens ≡ length q.input_ids
    → length (next_chunk max b q) ≡ chunk_size max b q
unfolding next_chunk chunk_size remaining_prefill_tokens
length-next_chunk max b q e = omega (
  arith,
  e,
  length-take (chunk_size max b q)
      (drop (q.num_cached_tokens + q.num_scheduled_tokens) q.input_ids),
  length-drop (q.num_cached_tokens + q.num_scheduled_tokens) q.input_ids,
)

advance_lem :
    (now n : ℕ) (q : Sequence)
    → q.status ≢ cancelled
    → (start (advance now prefill n q) ≡ start q + n)
      × ((advance now prefill n q).status ≡ q.status)
      × ((advance now prefill n q).num_prompt_tokens ≡ q.num_prompt_tokens)
      × ((advance now prefill n q).input_ids ≡ q.input_ids)
unfolding advance start
advance_lem now n q live = ground (arith, live)

complete_lem :
    (q : Sequence)
    → is_prefill_complete q ≡ true
    → q.num_prompt_tokens ≡ length q.input_ids
    → [] ≡ drop (start q) q.input_ids
unfolding is_prefill_complete remaining_prefill_tokens start
complete_lem q c e =
    sym (drop-all (q.num_cached_tokens + q.num_scheduled_tokens) q.input_ids (ground (arith, c, e)))

less_remaining :
    (max : ℕ) (b : Option ℕ) (fuel : ℕ) (q r : Sequence)
    → 0 < chunk_size max b q
    → remaining_prefill_tokens q ≤ suc fuel
    → start r ≡ start q + chunk_size max b q
    → r.num_prompt_tokens ≡ q.num_prompt_tokens
    → remaining_prefill_tokens r ≤ fuel
unfolding remaining_prefill_tokens start
less_remaining max b fuel q r some_tokens enough e k = omega (arith, some_tokens, enough, e, k)

chunk_and_rest :
    (max : ℕ) (b : Option ℕ) (q r : Sequence)
    → start r ≡ start q + chunk_size max b q
    → r.input_ids ≡ q.input_ids
    → next_chunk max b q ++ drop (start r) r.input_ids ≡ drop (start q) q.input_ids
unfolding next_chunk start
chunk_and_rest max b q r e same =
    rw
      (
        e,
        same,
        sym (
            drop-drop (q.num_cached_tokens + q.num_scheduled_tokens) (chunk_size max b q)
              q.input_ids),
      )
      (take-append-drop (chunk_size max b q)
        (drop (q.num_cached_tokens + q.num_scheduled_tokens) q.input_ids))

-- For a sequence that is not cancelled and whose prompt count is the length of its prompt, and a
-- positive chunk limit, as many rounds as prompt tokens remain are enough to complete its prefill:
-- the chunks are the uncached part of the prompt, in order and each token once, and each chunk is
-- non-empty and within the limit.
pub prefill_run_lem :
    (now max : ℕ) (b : Option ℕ) (fuel : ℕ) (q : Sequence)
    → 0 < max
    → q.status ≢ cancelled
    → q.num_prompt_tokens ≡ length q.input_ids
    → remaining_prefill_tokens q ≤ fuel
    → let (chunks, last) = prefill_run now max b fuel q in
      (is_prefill_complete last ≡ true)
      × (flatten chunks ≡ drop (q.num_cached_tokens + q.num_scheduled_tokens) q.input_ids)
      × All (λ c. (0 < length c) × (length c ≤ max)) chunks
unfolding prefill_run start is_prefill_complete flatten
prefill_run_lem now max b zero q m live e enough =
    let c : is_prefill_complete q ≡ true = ground (arith, enough) in (c, complete_lem q c e, tt)
prefill_run_lem now max b (suc fuel) q m live e enough = elim (Bool-cases (is_prefill_complete q)) [
  | inl c ↦ rw c (c, complete_lem q c e, tt)
  | inr c ↦
      let chunk = next_chunk max b q in
      let size = length-next_chunk max b q e in
      let (lo, hi, fits, budgeted) = chunk_size_bounds max b q m c in
      let r = advance now prefill (length chunk) q in
      let (moved, status, prompt, ids) = advance_lem now (length chunk) q live in
      let moved' : start r ≡ start q + chunk_size max b q = moved ∙ ap (λ k. start q + k) size in
      let (done, whole, sizes) =
        prefill_run_lem now max b fuel r m (λ k. live (sym status ∙ k))
          (prompt ∙ e ∙ ap length (sym ids))
          (less_remaining max b fuel q r lo enough moved' prompt) in
      rw c (
        done,
        ap (λ l. chunk ++ l) whole ∙ chunk_and_rest max b q r moved' ids,
        ((omega (arith, size, lo), omega (arith, size, hi)), sizes),
      )
]
