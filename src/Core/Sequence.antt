-- ===== src/Core/Sequence.antt =====
-- src/solort/core/sequence.py: a request's state. A clock reading is an argument, counted in ticks,
-- and a float option is a decimal. The metadata dict is a record of the keys that the code uses.
use solo_rt.Prelude.{
  ℕ, ◌+◌, ◌-◌, Bool, true, false, Option, List, String, if◌then◌else◌, length, ◌==◌, ℤ,
}
use solo_rt.Cache.BlockHash.{Text}
use solo_rt.Cache.PrefixCache.{Address}
use solo_rt.Core.Session.{Message}

pub data SequenceStatus : Type 0 where
  waiting running finished cancelled : SequenceStatus

pub data BatchPhase : Type 0 where
  prefill decode : BatchPhase

pub data TaskKind : Type 0 where
  foreground background branch cache_maintenance : TaskKind

pub data SchedulerPriority : Type 0 where
  foreground_decode foreground_prefill branch_decode background_prefill : SchedulerPriority
  cache_maintenance_priority : SchedulerPriority

-- The `IntEnum`'s numbers.
abbrev pub rank : SchedulerPriority → ℕ
rank foreground_decode = 0
rank foreground_prefill = 1
rank branch_decode = 2
rank background_prefill = 3
rank cache_maintenance_priority = 4

-- The number `digits / 10 ^ places`.
pub record Decimal : Type 0 where
  pub digits : ℤ
  pub places : ℕ

pub record Metadata : Type 0 where
  pub model_id : String
  pub messages : List Message
  pub request_messages : List Message
  pub response_text : Text
  pub response_appended : Bool
  pub temperature : Decimal
  pub top_p : Decimal
  pub top_k : ℤ
  pub repetition_penalty : Decimal
  pub max_repeated_token_run : ℤ
  pub enable_thinking : Bool

pub record Sequence : Type 0 where
  pub seq_id : String
  pub session_id : String
  pub input_ids : List ℕ
  pub max_new_tokens : ℕ
  pub output_ids : List ℕ
  pub status : SequenceStatus
  pub priority : SchedulerPriority
  pub task_kind : TaskKind
  pub num_prompt_tokens : ℕ
  pub num_cached_tokens : ℕ
  pub num_scheduled_tokens : ℕ
  pub stop_token_ids : List ℕ
  pub block_table : List ℕ
  pub kv_precision : String
  pub cache_handle : Option Address
  pub metadata : Metadata
  pub created_ts : ℕ
  pub last_active_ts : ℕ

-- `__post_init__`
unfoldable pub post_init : Sequence → Sequence
post_init s =
    if s.num_prompt_tokens == 0 then record s { num_prompt_tokens = length s.input_ids } else s

-- `max(0, a - b)`
unfoldable pub remaining_prefill_tokens : Sequence → ℕ
remaining_prefill_tokens s = s.num_prompt_tokens - (s.num_cached_tokens + s.num_scheduled_tokens)

unfoldable pub generated_tokens : Sequence → ℕ
generated_tokens s = length s.output_ids

unfoldable pub is_prefill_complete : Sequence → Bool
is_prefill_complete s = remaining_prefill_tokens s == 0

abbrev pub is_final : SequenceStatus → Bool
is_final waiting = false
is_final running = false
is_final finished = true
is_final cancelled = true

unfoldable pub is_terminal : Sequence → Bool
is_terminal s = is_final s.status

unfoldable pub mark_running : ℕ → Sequence → Sequence
mark_running now s = record s { status = running; last_active_ts = now }

unfoldable pub mark_finished : ℕ → Sequence → Sequence
mark_finished now s = record s { status = finished; last_active_ts = now }

unfoldable pub mark_cancelled : ℕ → Sequence → Sequence
mark_cancelled now s = record s { status = cancelled; last_active_ts = now }
