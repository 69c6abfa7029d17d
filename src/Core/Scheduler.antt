-- ===== src/Core/Scheduler.antt =====
-- src/solort/core/scheduler.py: the foreground-first scheduler. A reference to a sequence is its id
-- in `sequences`; a clock reading is the argument `now`.
pub mod Order
pub mod Queue
pub mod Prefill
use solo_rt.Prelude.{
  ℕ, zero, suc, ◌+◌, ◌-◌, min, Bool, true, false, ◌&&◌, ◌||◌, not, Option, none, some, List, [],
  ◌∷◌, ◌++◌, String, if◌then◌else◌, leb, ltb, ◌==◌, length, take, drop, ℤ, pos, negsuc, Result, ok,
  err, value_error, key_error, index_error,
}
use solo_rt.Prelude.Errors.{◌>>=◌}
use solo_rt.Prelude.Exec.{Exec}
use solo_rt.Prelude.Dict
use solo_rt.Prelude.Dict.{Dict}
use solo_rt.Prelude.Sort.{sort_by}
use solo_rt.Core.Sequence.{
  Sequence, SequenceStatus, waiting, running, finished, cancelled, BatchPhase, prefill, decode,
  TaskKind, foreground, background, branch, cache_maintenance, SchedulerPriority, foreground_decode,
  foreground_prefill, branch_decode, background_prefill, cache_maintenance_priority, rank,
  remaining_prefill_tokens, is_prefill_complete, is_terminal, mark_running, mark_finished,
  mark_cancelled,
}
use solo_rt.Core.Batch.{Batch, build_prefill, build_decode}

pub record InteractiveScheduler : Type 0 where
  pub max_prefill_chunk_tokens : ℕ
  pub sequences : Dict Sequence
  pub order : List String

-- `__init__`
unfoldable pub new_scheduler : ℤ → Result InteractiveScheduler
new_scheduler (pos (suc n)) =
    ok (record { max_prefill_chunk_tokens = suc n; sequences = []; order = [] })
new_scheduler _ = err value_error

-- A write to a sequence's fields, which the dict's reader sees.
abbrev pub write : Sequence → InteractiveScheduler → InteractiveScheduler
write q s = record s { sequences = Dict.insert q.seq_id q s.sequences }

unfoldable pub add_sequence : Sequence → InteractiveScheduler → InteractiveScheduler
add_sequence q s = record s {
  sequences = Dict.insert q.seq_id q s.sequences;
  order = s.order ++ q.seq_id ∷ [];
}

unfoldable pub get : String → InteractiveScheduler → Option Sequence
get seq_id s = Dict.lookup seq_id s.sequences

unfoldable pub cancel : ℕ → String → InteractiveScheduler → Bool × InteractiveScheduler
cancel now seq_id s = elim (Dict.lookup seq_id s.sequences) [
  | none ↦ (false, s)
  | some q ↦ if is_terminal q then (false, s) else (true, write (mark_cancelled now q) s)
]

unfoldable pub mark_sequence_finished : ℕ → String → InteractiveScheduler → InteractiveScheduler
mark_sequence_finished now seq_id s = elim (Dict.lookup seq_id s.sequences) [
  | none ↦ s
  | some q ↦ write (mark_finished now q) s
]

pub kind_priority : TaskKind → Bool → SchedulerPriority
kind_priority cache_maintenance complete = cache_maintenance_priority
kind_priority branch complete = if complete then branch_decode else foreground_prefill
kind_priority background complete = if complete then foreground_decode else background_prefill
kind_priority foreground complete = if complete then foreground_decode else foreground_prefill

unfoldable pub effective_priority : Sequence → SchedulerPriority
unfolding kind_priority
effective_priority q = kind_priority q.task_kind (is_prefill_complete q)

-- The key `(priority, created_ts)`, compared as Python compares tuples.
unfoldable pub comes_first : Sequence → Sequence → Bool
comes_first a b =
    let p = rank (effective_priority a) in
    let r = rank (effective_priority b) in ltb p r || ((p == r) && leb a.created_ts b.created_ts)

unfoldable pub candidates : Dict Sequence → List String → Result (List Sequence)
candidates sequences [] = ok []
candidates sequences (seq_id ∷ order) =
    let others = candidates sequences order in
    elim (Dict.lookup seq_id sequences) [
      | none ↦ err key_error
      | some q ↦ if is_terminal q then others else (others >>= λ qs. ok (q ∷ qs))
    ]

abbrev pub first : List Sequence → Option Sequence
first [] = none
first (q ∷ qs) = some q

unfoldable pub select_next_sequence : InteractiveScheduler → Result (Option Sequence)
select_next_sequence s =
    candidates s.sequences s.order >>= λ qs. ok (first (sort_by comes_first qs))

-- `token_budget or self.max_prefill_chunk_tokens`: a budget of 0 is no budget.
unfoldable pub budget_or : Option ℕ → ℕ → ℕ
budget_or none d = d
budget_or (some budget) d = if budget == 0 then d else budget

unfoldable pub chunk_size : ℕ → Option ℕ → Sequence → ℕ
chunk_size max token_budget q =
    min (min (remaining_prefill_tokens q) (budget_or token_budget max)) max

-- `sequence.input_ids[start:end]`
unfoldable pub next_chunk : ℕ → Option ℕ → Sequence → List ℕ
unfolding chunk_size
next_chunk max token_budget q =
    take (chunk_size max token_budget q)
      (drop (q.num_cached_tokens + q.num_scheduled_tokens) q.input_ids)

-- `build_next_batch` from the line that marks the selected sequence running.
unfoldable pub batch_of :
    String → ℕ → Option ℕ → Sequence → Exec InteractiveScheduler (Option Batch)
batch_of id now token_budget q s =
    let r = mark_running now q in
    let p : Sequence = record r { priority = effective_priority r } in
    (
      if is_prefill_complete q
          then build_decode id p >>= (λ b. ok (some b))
          else ok
              (some (build_prefill id p (next_chunk s.max_prefill_chunk_tokens token_budget p))),
      write p s,
    )

unfoldable pub build_next_batch : String → ℕ → Option ℕ → Exec InteractiveScheduler (Option Batch)
unfolding batch_of
build_next_batch id now token_budget s = elim (select_next_sequence s) [
  | err e ↦ (err e, s)
  | ok none ↦ (ok none, s)
  | ok (some q) ↦ batch_of id now token_budget q s
]

-- What `postprocess_batch` does to the batch's sequence.
unfoldable pub advance : ℕ → BatchPhase → ℕ → Sequence → Sequence
advance now phase tokens q = elim q.status [
  | cancelled ↦ q
  | _ ↦ elim phase [
    | decode ↦ record q { last_active_ts = now }
    | prefill ↦ record q {
      num_scheduled_tokens = q.num_scheduled_tokens + tokens;
      last_active_ts = now;
    }
  ]
]

-- `batch.seqs[0]`
unfoldable pub sequence_of : Batch → InteractiveScheduler → Result Sequence
sequence_of b s = elim b.seqs [
  | [] ↦ err index_error
  | seq_id ∷ _ ↦ elim (Dict.lookup seq_id s.sequences) [ none ↦ err key_error | some q ↦ ok q ]
]

unfoldable pub postprocess_batch : ℕ → Batch → Exec InteractiveScheduler Unit
unfolding sequence_of advance
postprocess_batch now b s = elim (sequence_of b s) [
  | err e ↦ (err e, s)
  | ok q ↦ (ok tt, write (advance now b.phase (length b.input_ids) q) s)
]

pub record SchedulerSnapshot : Type 0 where
  pub waiting_sequences : ℕ
  pub running_sequences : ℕ
  pub finished_sequences : ℕ

pub tally : List Sequence → SchedulerSnapshot → SchedulerSnapshot
tally [] c = c
tally (q ∷ qs) c = tally qs (elim q.status [
  | finished ↦ record c { finished_sequences = c.finished_sequences + 1 }
  | running ↦ record c { running_sequences = c.running_sequences + 1 }
  | waiting ↦ record c { waiting_sequences = c.waiting_sequences + 1 }
  | cancelled ↦ c
])

unfoldable pub snapshot : InteractiveScheduler → SchedulerSnapshot
unfolding tally
snapshot s =
    tally (Dict.values s.sequences)
      (record { waiting_sequences = 0; running_sequences = 0; finished_sequences = 0 })
