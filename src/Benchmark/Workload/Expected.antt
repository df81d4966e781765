-- ===== src/Benchmark/Workload/Expected.antt =====
-- Which responses `run_workload` (tools/qualification-benchmark.py) accepts.
use envoy_modsecurity.Prelude.{
  ℕ, ◌+◌, ◌-◌, ◌/◌, ◌%◌, ◌<◌, ◌≡◌, ◌≢◌, refl, sym, ◌∙◌, ap, ◌↔◌, Bool, true, false, List, [], ◌∷◌,
  map, Option, none, some, arith, leb, ◌==◌, nat_eq, Bool-cases, inl, inr,
}
use envoy_modsecurity.Prelude.Lists.{length, is_empty, all, get_elem?-lt}
use envoy_modsecurity.Prelude.Sorting.{sorted, length-sorted}
use envoy_modsecurity.Prelude.Text.{Str}
use envoy_modsecurity.Report.Timing.{percentile_index}
use envoy_modsecurity.Benchmark.Workload.{
  Reply, raised, status, Response, latency, error, Spec, reply_outcome, one_request, gather,
  latency_percentile, doubled_median, maximum, Fractions, Measured, Workload, summary, run_workload,
}

-- The reply has the expected status.
abbrev pub is_expected : ℕ → Reply → Bool
is_expected expected (raised e) = false
is_expected expected (status s) = s == expected

abbrev pub all_expected : Spec → List Response → Bool
all_expected spec responses = all (λ r. is_expected spec.expected_status r.reply) responses

outcome_expected :
    (spec : Spec) (n : ℕ) (reply : Reply)
    → is_expected spec.expected_status reply ≡ true
    → reply_outcome spec n reply ≡ latency n
unfolding reply_outcome
outcome_expected spec n (raised e) h = cc
outcome_expected spec n (status s) h = ground arith

outcome_unexpected :
    (spec : Spec) (n : ℕ) (reply : Reply)
    → is_expected spec.expected_status reply ≡ false
    → (e : Str) × (reply_outcome spec n reply ≡ error e)
unfolding reply_outcome
outcome_unexpected spec n (raised e) h = (e, refl)
outcome_unexpected spec n (status s) h = rw h (_, refl)

-- There is no error exactly if all replies are expected, and then there is a latency for each.
gather_lem :
    (spec : Spec) (responses : List Response)
    → (is_empty (gather spec responses).1 ≡ all_expected spec responses)
      × (all_expected spec responses ≡ true
          → (gather spec responses).0 ≡ map (λ r. r.elapsed_ns) responses)
unfolding gather one_request all
gather_lem spec [] = (refl, λ h. refl)
gather_lem spec (response ∷ responses) =
    let (none_failed, times) = gather_lem spec responses in
    elim (Bool-cases (is_expected spec.expected_status response.reply)) [
      | inl good ↦
          let ok = outcome_expected spec response.elapsed_ns response.reply good in
          rw (ok, good) (none_failed, λ h. ap (◌∷◌ response.elapsed_ns) (times h))
      | inr bad ↦
          let (e, failed) = outcome_unexpected spec response.elapsed_ns response.reply bad in
          rw (failed, bad) (refl, λ h. cc)
    ]

percentile_index-lt : (scaled : ℕ → ℕ) (n : ℕ) → 0 < n → percentile_index scaled n < n
unfolding percentile_index
percentile_index-lt scaled n h = omega arith

latency_percentile-some :
    (scaled : ℕ → ℕ) (values : List ℕ)
    → 0 < length values
    → (v : ℕ) × (latency_percentile scaled values ≡ some v)
unfolding latency_percentile
latency_percentile-some scaled values h =
    get_elem?-lt (sorted leb values) _
      (percentile_index-lt scaled _ (omega (arith, length-sorted leb values)))

doubled_median-some :
    (values : List ℕ) → 0 < length values → (v : ℕ) × (doubled_median values ≡ some v)
unfolding doubled_median
doubled_median-some values h =
    let ordered = sorted leb values in
    let same = length-sorted leb values in
    let (a, upper) = get_elem?-lt ordered (length ordered / 2) (omega arith) in
    let (b, lower) = get_elem?-lt ordered (length ordered / 2 - 1) (omega arith) in
    elim (Bool-cases (length ordered % 2 == 1)) [
      | inl odd ↦ (a + a, ground arith)
      | inr even ↦ (b + a, ground arith)
    ]

some_not_none {ℓ} : {A : Type ℓ} {a : A} → ◌≡◌ {A = Option A} (some a) none → ⊥
some_not_none h = cc

module _ {F : Type 0} (fractions : Fractions) (spec : Spec) (measured : Measured F) where
  summary-some :
      (latencies : List ℕ)
      → 0 < length latencies
      → (w : Workload F) × (summary fractions spec measured latencies ≡ some w)
  unfolding summary
  summary-some latencies h =
      let (m, is_m) = doubled_median-some latencies h in
      let (a, is_a) = latency_percentile-some fractions.p95 latencies h in
      let (b, is_b) = latency_percentile-some fractions.p99 latencies h in
      (
        record {
          requests = spec.count;
          concurrency = spec.concurrency;
          measured = measured;
          doubled_median = m;
          p95 = a;
          p99 = b;
          maximum = maximum latencies;
        },
        ground arith,
      )

  run_expected :
      (responses : List Response)
      → all_expected spec responses ≡ true
      → run_workload fractions spec measured responses
        ≡ summary fractions spec measured (map (λ r. r.elapsed_ns) responses)
  unfolding run_workload
  run_expected responses h =
      let (none_failed, times) = gather_lem spec responses in rw (none_failed ∙ h, times h) refl

  run_unexpected :
      (responses : List Response)
      → all_expected spec responses ≡ false
      → run_workload fractions spec measured responses ≡ none
  unfolding run_workload
  run_unexpected responses h = rw ((gather_lem spec responses).0 ∙ h) refl

  some_latency :
      (responses : List Response) → responses ≢ [] → 0 < length (map (λ r. r.elapsed_ns) responses)
  some_latency [] h = absurd (h refl)
  some_latency (r ∷ rs) h = omega arith

  -- A workload with at least one response is measured, with no exception, exactly when the
  -- replies of all its requests have the expected status.
  pub run_workload-all_expected :
      (responses : List Response)
      → responses ≢ []
      → (run_workload fractions spec measured responses ≢ none)
        ↔ (all_expected spec responses ≡ true)
  run_workload-all_expected responses h = elim (Bool-cases (all_expected spec responses)) [
    | inl good ↦
        let (w, is_some) =
          summary-some (map (λ r. r.elapsed_ns) responses) (some_latency responses h) in
        let returned = run_expected responses good ∙ is_some in
        (λ _. good, λ _ is_none. some_not_none (sym returned ∙ is_none))
    | inr bad ↦
        (λ raises. absurd (raises (run_unexpected responses bad)), λ good. absurd (ground arith))
  ]
