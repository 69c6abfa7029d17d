-- ===== src/Core/Metrics.antt =====
-- src/solort/core/metrics.py: request and token counters with their timings. Time is counted in
-- ticks of the clock, whose reading is an argument. A quotient is kept as its numerator and its
-- denominator, since floats are not modelled.
pub mod Laws
use solo_rt.Prelude.{
  ℕ, zero, suc, ◌+◌, ◌-◌, Bool, true, false, ◌&&◌, not, Option, none, some, List, [], ◌∷◌, ◌++◌,
  String, if◌then◌else◌, ltb, ◌==◌, length,
}
use solo_rt.Prelude.Dict
use solo_rt.Prelude.Dict.{Dict}

pub record SequenceTiming : Type 0 where
  pub created_ts : ℕ
  pub first_token_ts : Option ℕ
  pub finished_ts : Option ℕ
  pub token_timestamps : List ℕ

pub record RuntimeMetrics : Type 0 where
  pub requests_started : ℕ
  pub requests_finished : ℕ
  pub tokens_generated : ℕ
  pub timings : Dict SequenceTiming

abbrev pub new_metrics : RuntimeMetrics
new_metrics = record {
  requests_started = 0;
  requests_finished = 0;
  tokens_generated = 0;
  timings = [];
}

abbrev pub new_timing : ℕ → SequenceTiming
new_timing now = record {
  created_ts = now;
  first_token_ts = none;
  finished_ts = none;
  token_timestamps = [];
}

unfoldable pub start_request : ℕ → String → RuntimeMetrics → RuntimeMetrics
start_request now seq_id m = record m {
  requests_started = m.requests_started + 1;
  timings = Dict.insert seq_id (new_timing now) m.timings;
}

-- `setdefault`
unfoldable pub timing_of : ℕ → String → RuntimeMetrics → SequenceTiming
timing_of now seq_id m = elim (Dict.lookup seq_id m.timings) [
  | none ↦ new_timing now
  | some timing ↦ timing
]

-- `if timing.first_token_ts is None`
abbrev pub or_now : ℕ → Option ℕ → Option ℕ
or_now now none = some now
or_now now (some ts) = some ts

unfoldable pub record_token : ℕ → String → RuntimeMetrics → RuntimeMetrics
unfolding timing_of
record_token now seq_id m =
    let timing = timing_of now seq_id m in
    let stamped : SequenceTiming = record timing {
      first_token_ts = or_now now timing.first_token_ts;
      token_timestamps = timing.token_timestamps ++ now ∷ [];
    } in
    record m {
      tokens_generated = m.tokens_generated + 1;
      timings = Dict.insert seq_id stamped m.timings;
    }

unfoldable pub finish_request : ℕ → String → RuntimeMetrics → RuntimeMetrics
finish_request now seq_id m =
    let counted : RuntimeMetrics = record m { requests_finished = m.requests_finished + 1 } in
    elim (Dict.lookup seq_id m.timings) [
      | none ↦ counted
      | some timing ↦
          let done : SequenceTiming = record timing { finished_ts = some now } in
          record counted { timings = Dict.insert seq_id done m.timings }
    ]

-- A quotient, none where the code reports `None`.
pub record Ratio : Type 0 where
  pub numerator : ℕ
  pub denominator : ℕ

abbrev pub sum : List ℕ → ℕ
sum [] = 0
sum (x ∷ xs) = x + sum xs

-- `sum(xs) / len(xs) if xs else None`
unfoldable pub average : List ℕ → Option Ratio
average [] = none
average (x ∷ xs) = some (record { numerator = sum (x ∷ xs); denominator = length (x ∷ xs) })

-- `n / sum(xs) if xs and sum(xs) > 0 else None`
unfoldable pub rate : ℕ → List ℕ → Option Ratio
rate n xs =
    if not (length xs == 0) && ltb 0 (sum xs)
    then some (record { numerator = n; denominator = sum xs })
    else none

unfoldable pub ttfts : List SequenceTiming → List ℕ
ttfts [] = []
ttfts (timing ∷ rest) = elim timing.first_token_ts [
  | none ↦ ttfts rest
  | some ts ↦ (ts - timing.created_ts) ∷ ttfts rest
]

unfoldable pub ttots : List SequenceTiming → List ℕ
ttots [] = []
ttots (timing ∷ rest) = elim timing.finished_ts [
  | none ↦ ttots rest
  | some ts ↦ (ts - timing.created_ts) ∷ ttots rest
]

-- `later - earlier` for the neighbours of a list; a list of fewer than two has none.
unfoldable pub gaps : List ℕ → List ℕ
gaps [] = []
gaps (earlier ∷ []) = []
gaps (earlier ∷ later ∷ rest) = (later - earlier) ∷ gaps (later ∷ rest)

unfoldable pub tpots : List SequenceTiming → List ℕ
unfolding gaps
tpots [] = []
tpots (timing ∷ rest) = gaps timing.token_timestamps ++ tpots rest

pub record MetricsSnapshot : Type 0 where
  pub requests_started : ℕ
  pub requests_finished : ℕ
  pub tokens_generated : ℕ
  pub avg_ttft : Option Ratio
  pub avg_tpot : Option Ratio
  pub avg_itl : Option Ratio
  pub avg_ttot : Option Ratio
  pub overall_tps : Option Ratio
  pub decode_tps : Option Ratio

unfoldable pub snapshot : RuntimeMetrics → MetricsSnapshot
unfolding average rate ttfts ttots tpots
snapshot m =
    let timings = Dict.values m.timings in
    record {
      requests_started = m.requests_started;
      requests_finished = m.requests_finished;
      tokens_generated = m.tokens_generated;
      avg_ttft = average (ttfts timings);
      avg_tpot = average (tpots timings);
      avg_itl = average (tpots timings);
      avg_ttot = average (ttots timings);
      overall_tps = rate m.tokens_generated (ttots timings);
      decode_tps = rate (length (tpots timings)) (tpots timings);
    }
