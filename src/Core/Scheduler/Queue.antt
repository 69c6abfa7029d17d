-- ===== src/Core/Scheduler/Queue.antt =====
-- The scheduler's own invariant: every id in its queue is a key of its dict, so that no method
-- raises `KeyError`.
use solo_rt.Prelude.{
  ℕ, ◌≡◌, refl, ap, subst, inl, inr, Option, none, some, List, [], ◌∷◌, ◌++◌, String, ◌-◌, ◌<◌, ◌⊎◌,
  length, get_elem?-some, str_eq, str_eq_iff, Bool-cases, Option-cases, Result-cases, List-cases,
  Result, ok, arith,
}
use solo_rt.Prelude.Dict
use solo_rt.Prelude.Dict.{Dict, lookup-insert}
use solo_rt.Prelude.Sort.{All, sort_by}
use solo_rt.Core.Sequence.{Sequence, is_terminal, is_prefill_complete, mark_cancelled, mark_running}
use solo_rt.Core.Batch.{Batch, last_token, last_of, build_decode, build_prefill, decode_of}
use solo_rt.Core.Scheduler.Order.{IsCandidate, IsNext, select-IsNext}
use solo_rt.Core.Scheduler.{
  InteractiveScheduler, candidates, comes_first, first, select_next_sequence, write, add_sequence,
  cancel, build_next_batch, batch_of, postprocess_batch, sequence_of, advance, effective_priority,
  next_chunk,
}

abbrev pub IsKey : Dict Sequence → String → Type 0
IsKey d id = (q : Sequence) × (Dict.lookup id d ≡ some q)

unfoldable pub IsQueue : InteractiveScheduler → Type 0
IsQueue s = All (IsKey s.sequences) s.order

candidates-total :
    (d : Dict Sequence) (order : List String)
    → All (IsKey d) order
    → (qs : List Sequence) × (candidates d order ≡ ok qs)
unfolding candidates
candidates-total d [] h = ([], refl)
candidates-total d (id ∷ order) h =
    let (q, e) = h.0 in
    let (qs, runs) = candidates-total d order h.1 in
    elim (Bool-cases (is_terminal q)) [
      | inl t ↦ (qs, rw (candidates, e, t) runs)
      | inr t ↦ (q ∷ qs, rw (candidates, e, t, runs) refl)
    ]

insert-IsKey :
    (id : String) (k : String) (q : Sequence) (d : Dict Sequence)
    → IsKey d id
    → IsKey (Dict.insert k q d) id
insert-IsKey id k q d (x, e) = elim (Bool-cases (str_eq k id)) [
  | inl b ↦ (q, ground (arith, lookup-insert k id q d, b))
  | inr b ↦ (x, ground (arith, lookup-insert k id q d, b, e))
]

insert-IsKeys :
    (order : List String) (k : String) (q : Sequence) (d : Dict Sequence)
    → All (IsKey d) order
    → All (IsKey (Dict.insert k q d)) order
insert-IsKeys [] k q d h = tt
insert-IsKeys (id ∷ order) k q d h = (insert-IsKey id k q d h.0, insert-IsKeys order k q d h.1)

pub write-IsQueue : (q : Sequence) (s : InteractiveScheduler) → IsQueue s → IsQueue (write q s)
unfolding IsQueue
write-IsQueue q s h = insert-IsKeys s.order q.seq_id q s.sequences h

append-IsKey :
    (order : List String) (id : String) (d : Dict Sequence)
    → All (IsKey d) order
    → IsKey d id
    → All (IsKey d) (order ++ id ∷ [])
append-IsKey [] id d h k = (k, tt)
append-IsKey (x ∷ order) id d h k = (h.0, append-IsKey order id d h.1 k)

pub add_sequence-IsQueue :
    (q : Sequence) (s : InteractiveScheduler) → IsQueue s → IsQueue (add_sequence q s)
unfolding IsQueue add_sequence
add_sequence-IsQueue q s h =
    append-IsKey s.order q.seq_id (Dict.insert q.seq_id q s.sequences)
      (insert-IsKeys s.order q.seq_id q s.sequences h)
      (
        q,
        ground (arith, lookup-insert q.seq_id q.seq_id q s.sequences, str_eq_iff q.seq_id q.seq_id),
      )

pub cancel-IsQueue :
    (now : ℕ) (id : String) (s : InteractiveScheduler) → IsQueue s → IsQueue (cancel now id s).1
unfolding cancel
cancel-IsQueue now id s h = elim (Option-cases (Dict.lookup id s.sequences)) [
  | inl e ↦ rw (cancel, e) h
  | inr (q, e) ↦ elim (Bool-cases (is_terminal q)) [
    | inl t ↦ rw (cancel, e, t) h
    | inr t ↦ rw (cancel, e, t) (write-IsQueue (mark_cancelled now q) s h)
  ]
]

batch_of-IsQueue :
    (id : String) (now : ℕ) (b : Option ℕ) (q : Sequence) (s : InteractiveScheduler)
    → IsQueue s
    → IsQueue (batch_of id now b q s).1
unfolding batch_of
batch_of-IsQueue id now b q s h =
    write-IsQueue
      (record (mark_running now q) { priority = effective_priority (mark_running now q) }) s h

pub build_next_batch-IsQueue :
    (id : String) (now : ℕ) (b : Option ℕ) (s : InteractiveScheduler)
    → IsQueue s
    → IsQueue (build_next_batch id now b s).1
unfolding build_next_batch
build_next_batch-IsQueue id now b s h = elim (Result-cases (select_next_sequence s)) [
  | inl (e, k) ↦ rw (build_next_batch, k) h
  | inr (o, k) ↦ elim (Option-cases o) [
    | inl n ↦ rw (build_next_batch, k, n) h
    | inr (q, n) ↦ rw (build_next_batch, k, n) (batch_of-IsQueue id now b q s h)
  ]
]

pub postprocess_batch-IsQueue :
    (now : ℕ) (b : Batch) (s : InteractiveScheduler)
    → IsQueue s
    → IsQueue (postprocess_batch now b s).1
unfolding postprocess_batch
postprocess_batch-IsQueue now b s h = elim (Result-cases (sequence_of b s)) [
  | inl (e, k) ↦ rw (postprocess_batch, k) h
  | inr (q, k) ↦
      rw (postprocess_batch, k) (write-IsQueue (advance now b.phase (length b.input_ids) q) s h)
]

select-total :
    (s : InteractiveScheduler) → IsQueue s → (o : Option Sequence) × (select_next_sequence s ≡ ok o)
unfolding select_next_sequence IsQueue
select-total s h =
    let (qs, runs) = candidates-total s.sequences s.order h in
    (first (sort_by comes_first qs), rw runs refl)

last_of-total : (xs : List ℕ) → 0 < length xs → (t : ℕ) × (last_of xs ≡ ok t)
unfolding last_of
last_of-total xs h =
    let (t, k) = get_elem?-some xs (length xs - 1) (omega (arith, h)) in (t, rw (last_of, k) refl)

pub last_token-total : (q : Sequence) → 0 < length q.input_ids → (t : ℕ) × (last_token q ≡ ok t)
unfolding last_token
last_token-total q h = elim (List-cases q.output_ids) [
  | inl e ↦ let (t, k) = last_of-total q.input_ids h in (t, rw (last_token, e) k)
  | inr (x, l, e) ↦
      let (t, k) = last_of-total q.output_ids (ground (arith, ap length e)) in
      (t, rw (last_token, e) k)
]

build_decode-total :
    (id : String) (q : Sequence)
    → 0 < length q.input_ids
    → (batch : Batch) × (build_decode id q ≡ ok batch)
unfolding build_decode
build_decode-total id q h =
    let (t, k) = last_token-total q h in (decode_of id q t, rw (build_decode, k) refl)

batch_of-total :
    (id : String) (now : ℕ) (b : Option ℕ) (q : Sequence) (s : InteractiveScheduler)
    → 0 < length q.input_ids
    → (batch : Batch) × (n : InteractiveScheduler) × (batch_of id now b q s ≡ (ok (some batch), n))
unfolding batch_of mark_running
batch_of-total id now b q s h =
    let p : Sequence = record (mark_running now q) {
      priority = effective_priority (mark_running now q);
    } in
    let (batch, built) = build_decode-total id p h in
    elim (Bool-cases (is_prefill_complete q)) [
      | inl c ↦ (batch, write p s, rw (batch_of, c, built) refl)
      | inr c ↦ (
        build_prefill id p (next_chunk s.max_prefill_chunk_tokens b p),
        write p s,
        rw (batch_of, c) refl,
      )
    ]

-- If every id in the queue is a key of the dict and every sequence that may run has a non-empty
-- prompt, build_next_batch does not raise: it returns none and no sequence may run, or it returns a
-- batch and every id in the queue is still a key.
pub build_next_batch-total :
    (id : String) (now : ℕ) (b : Option ℕ) (s : InteractiveScheduler)
    → IsQueue s
    → ((q : Sequence) → IsCandidate s q → 0 < length q.input_ids)
    → ((n : InteractiveScheduler) × (build_next_batch id now b s ≡ (ok none, n))
        × ((q : Sequence) → ¬ IsCandidate s q))
      ⊎ ((batch : Batch) × (n : InteractiveScheduler) × (build_next_batch id now b s
            ≡ (ok (some batch), n))
          × IsQueue n)
unfolding build_next_batch IsNext
build_next_batch-total id now b s h prompts =
    let (o, k) = select-total s h in
    elim (Option-cases o) [
      | inl n ↦ inl (s, rw (build_next_batch, k, n) refl, subst (IsNext s) n (select-IsNext s o k))
      | inr (q, n) ↦
          let (batch, after, runs) =
            batch_of-total id now b q s (prompts q (subst (IsNext s) n (select-IsNext s o k)).0) in
          let e : build_next_batch id now b s ≡ (ok (some batch), after) =
            rw (build_next_batch, k, n) runs in
          inr (
            batch,
            after,
            e,
            subst (λ (p : Result (Option Batch) × InteractiveScheduler). IsQueue p.1) e
                (build_next_batch-IsQueue id now b s h),
          )
    ]
