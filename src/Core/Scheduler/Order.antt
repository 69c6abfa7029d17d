-- ===== src/Core/Scheduler/Order.antt =====
-- Who runs next.
use solo_rt.Prelude.{
  ◌≡◌, ◌<◌, ◌≤◌, ◌⊎◌, refl, sym, subst, ◌∙◌, inl, inr, true, false, Option, none, some, List, [],
  ◌∷◌, String, Bool-cases, Option-cases, ap, Result, ok, err, arith,
}
use mathlib.Core.Bool.{true≢false}
use solo_rt.Prelude.Errors.{◌>>=◌, >>=-eq-ok}
use solo_rt.Prelude.Dict
use solo_rt.Prelude.Dict.{Dict}
use solo_rt.Prelude.Sort.{
  All, All-Has, Has, here, there, sort_by, All-sort_by, Has-sort_by, IsSortedBy, sort_by-IsSortedBy,
}
use solo_rt.Core.Sequence.{Sequence, is_terminal, rank, foreground_decode, is_prefill_complete}
use solo_rt.Core.Scheduler.{
  InteractiveScheduler, comes_first, candidates, first, select_next_sequence, effective_priority,
  kind_priority,
}

-- A sequence that an id of `order` stands for, and that is not terminal.
abbrev pub IsCandidate : InteractiveScheduler → Sequence → Type 0
IsCandidate s q =
    Has (λ id. (Dict.lookup id s.sequences ≡ some q) × (is_terminal q ≡ false)) s.order

comes_first_total : (a b : Sequence) → comes_first a b ≡ false → comes_first b a ≡ true
unfolding comes_first
comes_first_total a b h = ground (arith, h)

comes_first_trans :
    (a b c : Sequence) → comes_first a b ≡ true → comes_first b c ≡ true → comes_first a c ≡ true
unfolding comes_first
comes_first_trans a b c h k = ground (arith, h, k)

module _ (sequences : Dict Sequence) where
  abbrev Stands : Sequence → String → Type 0
  Stands q id = (Dict.lookup id sequences ≡ some q) × (is_terminal q ≡ false)

  weaken :
      (id : String) (order : List String) (qs : List Sequence)
      → All (λ q. Has (Stands q) order) qs
      → All (λ q. Has (Stands q) (id ∷ order)) qs
  weaken id order [] h = tt
  weaken id order (q ∷ qs) h = (there h.0, weaken id order qs h.1)

  unfoldable IsJust : List String → Result (List Sequence) → Type 0
  IsJust order (err e) = Unit
  IsJust order (ok qs) =
      All (λ q. Has (Stands q) order) qs
      × ((q : Sequence) → Has (Stands q) order → Has (λ x. x ≡ q) qs)

  skip_terminal :
      (id : String) (order : List String) (q : Sequence) (r : Result (List Sequence))
      → Dict.lookup id sequences ≡ some q
      → is_terminal q ≡ true
      → IsJust order r
      → IsJust (id ∷ order) r
  unfolding IsJust
  skip_terminal id order q (err e) found t h = tt
  skip_terminal id order q (ok qs) found t h = (
    weaken id order qs h.0,
    λ x m. elim m [
      | here stands ↦ absurd (
          true≢false (
            sym t
            ∙ ap (λ o. elim o [ none ↦ true | some y ↦ is_terminal y ]) (sym found ∙ stands.0)
            ∙ stands.1))
      | there m' ↦ h.1 x m'
    ],
  )

  keep_candidate :
      (id : String) (order : List String) (q : Sequence) (r : Result (List Sequence))
      → Dict.lookup id sequences ≡ some q
      → is_terminal q ≡ false
      → IsJust order r
      → IsJust (id ∷ order) (r >>= λ qs. ok (q ∷ qs))
  unfolding IsJust
  keep_candidate id order q (err e) found t h = tt
  keep_candidate id order q (ok qs) found t h = (
    (here (found, t), weaken id order qs h.0),
    λ x m. elim m [
      | here stands ↦ here (ap (λ o. elim o [ none ↦ q | some y ↦ y ]) (sym found ∙ stands.0))
      | there m' ↦ there (h.1 x m')
    ],
  )

  candidates-IsJust : (order : List String) → IsJust order (candidates sequences order)
  unfolding IsJust candidates
  candidates-IsJust [] = (tt, λ q m. elim m [ ])
  candidates-IsJust (id ∷ order) = elim (Option-cases (Dict.lookup id sequences)) [
    | inl e ↦ rw (candidates, IsJust, e) tt
    | inr (q, e) ↦ elim (Bool-cases (is_terminal q)) [
      | inl t ↦
          rw (candidates, e, t)
            (skip_terminal id order q (candidates sequences order) e t (candidates-IsJust order))
      | inr t ↦
          rw (candidates, e, t)
            (keep_candidate id order q (candidates sequences order) e t (candidates-IsJust order))
    ]
  ]

-- The order of the queue: the more urgent one, and of two that are as urgent the older one.
abbrev pub Precedes : Sequence → Sequence → Type 0
Precedes a b =
    (rank (effective_priority a) < rank (effective_priority b))
    ⊎ ((rank (effective_priority a) ≡ rank (effective_priority b)) × (a.created_ts ≤ b.created_ts))

comes_first-Precedes : (a b : Sequence) → comes_first a b ≡ true → Precedes a b
unfolding comes_first
comes_first-Precedes a b h = ground (arith, h)

-- The sequence that runs next is a candidate, and no candidate comes strictly before it; none runs
-- exactly if there is no candidate.
unfoldable pub IsNext : InteractiveScheduler → Option Sequence → Type 0
IsNext s none = (q : Sequence) → ¬ IsCandidate s q
IsNext s (some q) = IsCandidate s q × ((x : Sequence) → IsCandidate s x → Precedes q x)

at_head :
    (q x : Sequence) (qs : List Sequence)
    → IsSortedBy comes_first comes_first_total comes_first_trans (q ∷ qs)
    → Has (λ y. y ≡ x) (q ∷ qs)
    → comes_first q x ≡ true
at_head q x qs h (here e) =
    ap (comes_first q) (sym e)
    ∙ elim (Bool-cases (comes_first q q)) [ inl b ↦ b | inr b ↦ comes_first_total q q b ]
at_head q x qs h (there m) = let (y, b, e) = All-Has qs h.0 m in ap (comes_first q) (sym e) ∙ b

chosen :
    (s : InteractiveScheduler) (qs : List Sequence)
    → All (λ q. IsCandidate s q) qs
    → ((q : Sequence) → IsCandidate s q → Has (λ x. x ≡ q) qs)
    → IsSortedBy comes_first comes_first_total comes_first_trans qs
    → IsNext s (first qs)
unfolding IsNext
chosen s [] h back sorted = λ q m. elim (back q m) [ ]
chosen s (q ∷ qs) h back sorted =
    (h.0, λ x m. comes_first-Precedes q x (at_head q x qs sorted (back x m)))

select_list-IsNext :
    (s : InteractiveScheduler) (qs : List Sequence)
    → IsJust s.sequences s.order (ok qs)
    → IsNext s (first (sort_by comes_first qs))
unfolding IsJust
select_list-IsNext s qs h =
    chosen s (sort_by comes_first qs) (All-sort_by comes_first (λ q. IsCandidate s q) qs h.0)
      (λ q m. Has-sort_by comes_first (λ x. x ≡ q) qs (h.1 q m))
      (sort_by-IsSortedBy comes_first comes_first_total comes_first_trans qs)

-- When the selection returns, what it selects is a sequence of the queue that is neither finished
-- nor cancelled, and against every other such sequence its effective priority is more urgent, or as
-- urgent and it is created no later; it selects none only if no such sequence is left.
pub select-IsNext :
    (s : InteractiveScheduler) (o : Option Sequence) → select_next_sequence s ≡ ok o → IsNext s o
unfolding select_next_sequence
select-IsNext s o h =
    let (qs, runs, e) =
      >>=-eq-ok (candidates s.sequences s.order) (λ l. ok (first (sort_by comes_first l))) h in
    let justified = candidates-IsJust s.sequences s.order in
    subst (IsNext s) (ap (λ r. elim r [ ok x ↦ x | err _ ↦ o ]) e)
      (select_list-IsNext s qs (subst (IsJust s.sequences s.order) runs justified))

rank_zero : (q : Sequence) → rank (effective_priority q) ≡ 0 → is_prefill_complete q ≡ true
unfolding effective_priority kind_priority
rank_zero q h = ground (arith, h)

lowest :
    (p q : Sequence)
    → Precedes p q
    → effective_priority q ≡ foreground_decode
    → rank (effective_priority p) ≡ 0
lowest p q (inl b) e = omega (arith, ap rank e, b)
lowest p q (inr b) e = omega (arith, ap rank e, b.0)

-- When the selection returns while a sequence is waiting whose effective priority is foreground
-- decode, it selects a sequence whose prefill is complete, never one that still needs prefill.
pub decode_first :
    (s : InteractiveScheduler) (q : Sequence) (o : Option Sequence)
    → select_next_sequence s ≡ ok o
    → IsCandidate s q
    → effective_priority q ≡ foreground_decode
    → (p : Sequence) × (o ≡ some p) × (is_prefill_complete p ≡ true)
unfolding IsNext
decode_first s q none h m e = absurd (select-IsNext s none h q m)
decode_first s q (some p) h m e =
    let b = (select-IsNext s (some p) h).1 q m in (p, refl, rank_zero p (lowest p q b e))
