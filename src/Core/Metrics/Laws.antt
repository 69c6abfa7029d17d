-- ===== src/Core/Metrics/Laws.antt =====
-- The counters agree with the timings they stand beside.
use solo_rt.Prelude.{
  ℕ, ◌+◌, ◌≤◌, ◌≡◌, refl, ap, inl, inr, Option, none, some, List, [], ◌∷◌, ◌++◌, String, str_eq,
  Bool-cases, Option-cases, length, length-append, arith,
}
use solo_rt.Prelude.Dict
use solo_rt.Prelude.Dict.{Dict}
use solo_rt.Core.Metrics.{
  SequenceTiming, RuntimeMetrics, new_timing, start_request, record_token, finish_request,
  timing_of, gaps, sum, or_now,
}

-- What happens to the metrics.
pub data Event : Type 0 where
  started token done : ℕ → String → Event

pub handle : Event → RuntimeMetrics → RuntimeMetrics
unfolding start_request record_token finish_request
handle (started now id) m = start_request now id m
handle (token now id) m = record_token now id m
handle (done now id) m = finish_request now id m

pub handle_all : List Event → RuntimeMetrics → RuntimeMetrics
unfolding handle
handle_all [] m = m
handle_all (e ∷ es) m = handle_all es (handle e m)

-- A request starts under an id that has no timing yet.
unfoldable pub IsFresh : Event → RuntimeMetrics → Type 0
IsFresh (started now id) m = Dict.lookup id m.timings ≡ none
IsFresh (token now id) m = Unit
IsFresh (done now id) m = Unit

unfoldable pub AreFresh : List Event → RuntimeMetrics → Type 0
unfolding handle IsFresh
AreFresh [] m = Unit
AreFresh (e ∷ es) m = IsFresh e m × AreFresh es (handle e m)

unfoldable pub tokens : Dict SequenceTiming → ℕ
tokens [] = 0
tokens ((id, timing) ∷ rest) = length timing.token_timestamps + tokens rest

stamps : Option SequenceTiming → ℕ
stamps none = 0
stamps (some timing) = length timing.token_timestamps

tokens-insert :
    (id : String) (timing : SequenceTiming) (d : Dict SequenceTiming)
    → tokens (Dict.insert id timing d) + stamps (Dict.lookup id d)
      ≡ tokens d + length timing.token_timestamps
unfolding tokens stamps Dict.insert Dict.lookup
tokens-insert id timing [] = omega arith
tokens-insert id timing ((j, t) ∷ d) = elim (Bool-cases (str_eq j id)) [
  | inl b ↦ rw b (omega arith)
  | inr b ↦ rw b (omega (arith, tokens-insert id timing d))
]

handle-tokens :
    (e : Event) (m : RuntimeMetrics)
    → IsFresh e m
    → m.tokens_generated ≡ tokens m.timings
    → (handle e m).tokens_generated ≡ tokens (handle e m).timings
unfolding handle start_request record_token finish_request timing_of stamps IsFresh
handle-tokens (started now id) m f h =
    ground (arith, h, tokens-insert id (new_timing now) m.timings, ap stamps f)
handle-tokens (token now id) m f h = elim (Option-cases (Dict.lookup id m.timings)) [
  | inl e ↦
      let stamped : SequenceTiming = record (new_timing now) {
        first_token_ts = some now;
        token_timestamps = now ∷ [];
      } in
      rw (handle, record_token, timing_of, e)
        (omega (arith, h, tokens-insert id stamped m.timings, ap stamps e))
  | inr (timing, e) ↦
      let stamped : SequenceTiming = record timing {
        first_token_ts = or_now now timing.first_token_ts;
        token_timestamps = timing.token_timestamps ++ now ∷ [];
      } in
      rw (handle, record_token, timing_of, e)
        (omega (
          arith,
          h,
          tokens-insert id stamped m.timings,
          ap stamps e,
          length-append timing.token_timestamps (now ∷ []),
        ))
]
handle-tokens (done now id) m f h = elim (Option-cases (Dict.lookup id m.timings)) [
  | inl e ↦ rw (handle, finish_request, e) h
  | inr (timing, e) ↦
      rw (handle, finish_request, e)
        (omega (
          arith,
          h,
          tokens-insert id (record timing { finished_ts = some now }) m.timings,
          ap stamps e,
        ))
]

-- Over any history of metric calls in which each request starts under an id that has no timing,
-- from metrics whose token counter is the number of time stamps kept, the counter stays that
-- number.
pub handle_all-tokens :
    (es : List Event) (m : RuntimeMetrics)
    → AreFresh es m
    → m.tokens_generated ≡ tokens m.timings
    → (handle_all es m).tokens_generated ≡ tokens (handle_all es m).timings
unfolding handle_all AreFresh
handle_all-tokens [] m f h = h
handle_all-tokens (e ∷ es) m f h = handle_all-tokens es (handle e m) f.1 (handle-tokens e m f.0 h)

unfoldable pub IsNondecreasing : ℕ → List ℕ → Type 0
IsNondecreasing t [] = Unit
IsNondecreasing t (u ∷ us) = (t ≤ u) × IsNondecreasing u us

abbrev pub last : ℕ → List ℕ → ℕ
last t [] = t
last t (u ∷ us) = last u us

-- For token times that do not decrease, the gaps add up to the time from the first token to the
-- last, and there is one gap fewer than tokens.
pub gaps_lem :
    (t : ℕ) (ts : List ℕ)
    → IsNondecreasing t ts
    → (t + sum (gaps (t ∷ ts)) ≡ last t ts) × (length (gaps (t ∷ ts)) ≡ length ts)
unfolding gaps IsNondecreasing
gaps_lem t [] h = (omega arith, refl)
gaps_lem t (u ∷ us) h =
    let (span, number) = gaps_lem u us h.1 in (omega (arith, h.0, span), omega (arith, number))
