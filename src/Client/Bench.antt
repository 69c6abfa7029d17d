-- ===== src/Client/Bench.antt =====
-- src/benchmarks/bench_serving.py: one measured request, and the figures of several. Its
-- `iter_sse_payloads` is that of cli.py. Times are in ticks, and a float is the quotient that it stands
-- for; the reading of the clock at payload i is `clock i`.
pub mod Answers
use solo_rt.Prelude.{
  ℕ, zero, suc, ◌+◌, ◌-◌, ◌*◌, ◌/◌, ◌%◌, min, Bool, true, false, not, Option, none, some, List, [],
  ◌∷◌, ◌++◌, map, if◌then◌else◌, leb, ltb, ◌==◌, length, get_or, ℤ, pos, negsuc, Result, ok, err,
  runtime_error, type_error,
}
use mathlib.Core.List.{flatten}
use solo_rt.Prelude.Errors.{◌>>=◌}
use solo_rt.Prelude.Sort.{sort_by}
use solo_rt.Cache.BlockHash.{Text, codes}
use solo_rt.Cache.PrefixCache.{same_list}
use solo_rt.Core.Sequence.{Decimal}
use solo_rt.Core.Runtime.{or_default}
use solo_rt.Core.Metrics.{Ratio, average, rate, gaps, sum}
use solo_rt.Api.Json.{
  Json, null, bool, int, float, str, array, object, no_items, item, Fields, no_fields, field,
}
use solo_rt.Api.Json.Loads.{loads}
use solo_rt.Client.Sse.{get_of, first_choice, value_or}
use solo_rt.Client.Chat.{add_float, add_int}
use solo_rt.Client.ChatScript.{is_true}

pub record ServingRun : Type 0 where
  pub ttft_seconds : Option ℕ
  pub tpot_seconds : Option Ratio
  pub itl_seconds : List ℕ
  pub overall_tps : Ratio
  pub decode_tps : Option Ratio
  pub ttot_seconds : ℕ
  pub events : ℕ
  pub token_chunks : ℕ
  pub chars : ℕ
  pub text : Text

-- The payload of `run_streaming_request`.
unfoldable pub bench_payload :
    Text → Text → ℤ → Text → Option Text → Option ℤ → Option Text → Option ℤ → Json
bench_payload model prompt max_tokens temperature top_p top_k repetition_penalty max_run =
    let message = object (
      field (codes "role") (str (codes "user")) (field (codes "content") (str prompt) no_fields)) in
    object (
      field (codes "model") (str model) (
        field (codes "stream") (bool true) (
          field (codes "messages") (array (item message no_items)) (
            field (codes "max_tokens") (int max_tokens) (
              field (codes "temperature") (float temperature) (
                add_float (codes "top_p") top_p (
                  add_int (codes "top_k") top_k (
                    add_float (codes "repetition_penalty") repetition_penalty
                      (add_int (codes "max_repeated_token_run") max_run no_fields)))))))))

-- `_overall_tps`
unfoldable pub overall_tps : ℕ → ℕ → Ratio
overall_tps token_count total =
    if leb total 0
    then record { numerator = 0; denominator = 1 }
    else record { numerator = token_count; denominator = total }

-- `_decode_tps`
unfoldable pub decode_tps : List ℕ → Option Ratio
decode_tps itls = rate (length itls) itls

-- What the loop over the payloads keeps.
pub record Measured : Type 0 where
  pub first_token_at : Option ℕ
  pub token_arrivals : List ℕ
  pub chunks : List Json
  pub events : ℕ

abbrev pub nothing_yet : Measured
nothing_yet = record { first_token_at = none; token_arrivals = []; chunks = []; events = 0 }

-- `"".join(chunks)`, which raises on a chunk that is no text.
unfoldable pub texts_of : List Json → Result (List Text)
texts_of [] = ok []
texts_of (str t ∷ chunks) = texts_of chunks >>= λ texts. ok (t ∷ texts)
texts_of (v ∷ chunks) = err type_error

abbrev since : ℕ → Option ℕ → Option ℕ
since start none = none
since start (some ts) = some (ts - start)

-- The run, at the end of the stream, of chunks that are these texts.
unfoldable pub run_of : ℕ → ℕ → Measured → List Text → ServingRun
unfolding gaps average overall_tps decode_tps
run_of start now m texts =
    let itls = gaps m.token_arrivals in
    let ttot = now - start in
    record {
      ttft_seconds = since start m.first_token_at;
      tpot_seconds = average itls;
      itl_seconds = itls;
      overall_tps = overall_tps (length m.token_arrivals) ttot;
      decode_tps = decode_tps itls;
      ttot_seconds = ttot;
      events = m.events;
      token_chunks = length m.token_arrivals;
      chars = length (flatten texts);
      text = flatten texts;
    }

unfoldable pub serving_run : ℕ → ℕ → Measured → Result ServingRun
unfolding texts_of run_of
serving_run start now m = texts_of m.chunks >>= λ texts. ok (run_of start now m texts)

-- The content of an event, null if it has no choices.
unfoldable pub content_value : Json → Result Json
unfolding get_of first_choice
content_value event = get_of event (codes "choices") >>= λ choices.
    if is_true (value_or choices null)
    then (first_choice (value_or choices null) >>= λ choice.
        get_of choice (codes "delta") >>= λ delta.
        get_of (value_or delta (object no_fields)) (codes "content") >>= λ content.
        ok (value_or content null))
    else ok null

abbrev or_at : ℕ → Option ℕ → Option ℕ
or_at now none = some now
or_at now (some ts) = some ts

-- One event.
unfoldable pub measure : ℕ → Json → Measured → Measured
measure now content m =
    if is_true content
    then record {
      first_token_at = or_at now m.first_token_at;
      token_arrivals = m.token_arrivals ++ now ∷ [];
      chunks = m.chunks ++ content ∷ [];
      events = m.events + 1;
    }
    else record m { events = m.events + 1 }

-- The loop of `run_streaming_request`, at payload i.
unfoldable pub run_from : (ℕ → ℕ) → ℕ → ℕ → Measured → List Text → Result ServingRun
unfolding serving_run content_value measure loads same_list
run_from clock start i m [] = err runtime_error
run_from clock start i m (payload ∷ payloads) =
    if same_list payload (codes "[DONE]")
    then serving_run start (clock i) m
    else (loads payload >>= λ event. content_value event >>= λ content.
        run_from clock start (i + 1) (measure (clock i) content m) payloads)

-- `_percentile`, of whole percents: the index is (n - 1) * percentile / 100.
unfoldable pub percentile : List ℕ → ℕ → Option Ratio
percentile [] p = none
percentile (v ∷ values) p =
    let ordered = sort_by leb (v ∷ values) in
    let last = length ordered - 1 in
    let index = last * p in
    let lower = index / 100 in
    let upper = min (lower + 1) last in
    let weight = index % 100 in
    some (record {
      numerator = get_or ordered lower 0 * (100 - weight) + get_or ordered upper 0 * weight;
      denominator = 100;
    })

abbrev whole : ℕ → Ratio
whole n = record { numerator = n; denominator = 1 }

abbrev add_ratio : Ratio → Ratio → Ratio
add_ratio a b = record {
  numerator = a.numerator * b.denominator + b.numerator * a.denominator;
  denominator = a.denominator * b.denominator;
}

abbrev total : List Ratio → Ratio
total [] = whole 0
total (a ∷ rest) = add_ratio a (total rest)

-- `statistics.fmean(values) if values else None`
unfoldable pub fmean : List Ratio → Option Ratio
fmean [] = none
fmean (a ∷ rest) =
    let all = total (a ∷ rest) in
    some (record { numerator = all.numerator; denominator = all.denominator * length (a ∷ rest) })

abbrev leb_ratio : Ratio → Ratio → Bool
leb_ratio a b = leb (a.numerator * b.denominator) (b.numerator * a.denominator)

-- `statistics.median(values) if values else None`
unfoldable pub median : List Ratio → Option Ratio
median [] = none
median (a ∷ rest) =
    let ordered = sort_by leb_ratio (a ∷ rest) in
    let n = length ordered in
    let upper = get_or ordered (n / 2) a in
    if n % 2 == 1
    then some upper
    else (let both = add_ratio (get_or ordered (n / 2 - 1) a) upper in
        some (record { numerator = both.numerator; denominator = both.denominator * 2 }))

-- `[f(run) for run in run_list if f(run) is not None]`
abbrev given : {A : Type 0} → (ServingRun → Option A) → List ServingRun → List A
given f [] = []
given f (run ∷ runs) = elim (f run) [ none ↦ given f runs | some a ↦ a ∷ given f runs ]

abbrev after_first : ServingRun → Option ℕ
after_first run = elim run.ttft_seconds [ none ↦ none | some ttft ↦ some (run.ttot_seconds - ttft) ]

pub record Summary : Type 0 where
  pub runs : ℕ
  pub ttft_avg : Option Ratio
  pub ttft_p50 : Option Ratio
  pub tpot_avg : Option Ratio
  pub tpot_p50 : Option Ratio
  pub itl_avg : Option Ratio
  pub itl_p50 : Option Ratio
  pub itl_p95 : Option Ratio
  pub overall_tps_avg : Option Ratio
  pub decode_tps_avg : Option Ratio
  pub decode_after_first_avg : Option Ratio
  pub ttot_avg : Option Ratio
  pub ttot_p50 : Option Ratio
  pub token_chunks_avg : Option Ratio
  pub chars_avg : Option Ratio

-- `summarize_runs`; the total is reported twice, as the ttot.
unfoldable pub summarize_runs : List ServingRun → Summary
unfolding fmean median percentile
summarize_runs runs =
    let ttfts = map whole (given (λ run. run.ttft_seconds) runs) in
    let tpots = given (λ run. run.tpot_seconds) runs in
    let itls = flatten (map (λ run. run.itl_seconds) runs) in
    let ttots = map (λ run. whole run.ttot_seconds) runs in
    record {
      runs = length runs;
      ttft_avg = fmean ttfts;
      ttft_p50 = median ttfts;
      tpot_avg = fmean tpots;
      tpot_p50 = median tpots;
      itl_avg = fmean (map whole itls);
      itl_p50 = median (map whole itls);
      itl_p95 = percentile itls 95;
      overall_tps_avg = fmean (map (λ run. run.overall_tps) runs);
      decode_tps_avg = fmean (given (λ run. run.decode_tps) runs);
      decode_after_first_avg = fmean (map whole (given after_first runs));
      ttot_avg = fmean ttots;
      ttot_p50 = median ttots;
      token_chunks_avg = fmean (map (λ run. whole run.token_chunks) runs);
      chars_avg = fmean (map (λ run. whole run.chars) runs);
    }

-- `normalize_sampling_args`
unfoldable pub normalize_sampling_args :
    Decimal
    → Option Decimal
    → Option ℤ
    → Option Decimal
    → Option Decimal × Option ℤ × Option Decimal
normalize_sampling_args temperature top_p top_k repetition_penalty =
    let one : Decimal = record { digits = pos 1; places = 0 } in
    let greedy : Bool = elim temperature.digits [ negsuc n ↦ true | pos n ↦ n == 0 ] in
    if greedy
    then (
      some (or_default top_p one),
      some (or_default top_k (pos 0)),
      some (or_default repetition_penalty one),
    )
    else (top_p, top_k, repetition_penalty)
