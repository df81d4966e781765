-- ===== src/Benchmark/Workload.antt =====
-- `one_request`, `percentile` and `run_workload` of tools/qualification-benchmark.py. A latency is
-- kept in the nanoseconds that were measured, where the code divides it by a million. The measured
-- throughput and CPU time are floats of a type `F`.
pub mod Expected
pub mod Latency
use envoy_modsecurity.Prelude.{
  ℕ, suc, ◌+◌, ◌-◌, ◌*◌, ◌/◌, ◌%◌, max, List, [], ◌∷◌, ◌++◌, Option, none, some, leb, if◌then◌else◌,
  ◌==◌, nat_eq,
}
use envoy_modsecurity.Prelude.Lists.{length, get_elem?, is_empty}
use envoy_modsecurity.Prelude.Sorting.{sorted}
use envoy_modsecurity.Prelude.Text.{Str, codes, decimal}
use envoy_modsecurity.Report.Timing.{percentile_index}

-- What a request met: an exception with its text, or a reply's status; and the time it took.
pub data Reply : Type 0 where
  raised : Str → Reply
  status : ℕ → Reply

pub record Response : Type 0 where
  pub reply : Reply
  pub elapsed_ns : ℕ

-- The result of a future.
pub data Outcome : Type 0 where
  latency : ℕ → Outcome
  error : Str → Outcome

pub record Spec : Type 0 where
  pub name : Str
  pub count : ℕ
  pub concurrency : ℕ
  pub method : Str
  pub path : Str
  pub expected_status : ℕ

unfoldable pub reply_outcome : Spec → ℕ → Reply → Outcome
reply_outcome spec elapsed_ns (raised message) = error message
reply_outcome spec elapsed_ns (status s) =
    if s == spec.expected_status
    then latency elapsed_ns
    else error (
        spec.method
        ++ codes " "
        ++ spec.path
        ++ codes " returned "
        ++ decimal s
        ++ codes "; expected "
        ++ decimal spec.expected_status)

unfoldable pub one_request : Spec → Response → Outcome
unfolding reply_outcome
one_request spec response = reply_outcome spec response.elapsed_ns response.reply

abbrev pub add_outcome : Outcome → List ℕ × List Str → List ℕ × List Str
add_outcome (latency n) (latencies, errors) = (n ∷ latencies, errors)
add_outcome (error e) (latencies, errors) = (latencies, e ∷ errors)

-- The loop over the completed futures, in their order.
unfoldable pub gather : Spec → List Response → List ℕ × List Str
gather spec [] = ([], [])
gather spec (response ∷ responses) = add_outcome (one_request spec response) (gather spec responses)

-- `percentile`; `none` is IndexError, for no values.
unfoldable pub latency_percentile : (ℕ → ℕ) → List ℕ → Option ℕ
unfolding sorted percentile_index
latency_percentile scaled values =
    let ordered = sorted leb values in get_elem? ordered (percentile_index scaled (length ordered))

-- `statistics.median`, doubled, since it halves the sum of the two middle values.
unfoldable pub doubled_median : List ℕ → Option ℕ
unfolding sorted
doubled_median values =
    let ordered = sorted leb values in
    let n = length ordered in
    let upper = get_elem? ordered (n / 2) in
    let lower = if n % 2 == 1 then upper else get_elem? ordered (n / 2 - 1) in
    elim lower [ none ↦ none | some a ↦ elim upper [ none ↦ none | some b ↦ some (a + b) ] ]

-- `max(values)` of values of which there are some.
abbrev pub maximum : List ℕ → ℕ
maximum [] = 0
maximum (x ∷ xs) = max x (maximum xs)

-- The products `int(n * 0.95)` and `int(n * 0.99)`.
pub record Fractions : Type 0 where
  pub p95 : ℕ → ℕ
  pub p99 : ℕ → ℕ

pub record Measured (F : Type 0) : Type 0 where
  pub throughput_rps : F
  pub cpu_ms_per_request : F

pub record Workload (F : Type 0) : Type 0 where
  pub requests : ℕ
  pub concurrency : ℕ
  pub measured : Measured F
  pub doubled_median : ℕ
  pub p95 : ℕ
  pub p99 : ℕ
  pub maximum : ℕ

module _ {F : Type 0} (fractions : Fractions) where
  -- The dict that is returned for latencies of which there are some.
  unfoldable pub summary : Spec → Measured F → List ℕ → Option (Workload F)
  summary spec measured latencies = elim (doubled_median latencies) [
    | none ↦ none
    | some m ↦ elim (latency_percentile fractions.p95 latencies) [
      | none ↦ none
      | some a ↦ elim (latency_percentile fractions.p99 latencies) [
        | none ↦ none
        | some b ↦ some (record {
          requests = spec.count;
          concurrency = spec.concurrency;
          measured = measured;
          doubled_median = m;
          p95 = a;
          p99 = b;
          maximum = maximum latencies;
        })
      ]
    ]
  ]

  -- `none` is an exception: RuntimeError where a request had an error.
  unfoldable pub run_workload : Spec → Measured F → List Response → Option (Workload F)
  run_workload spec measured responses =
      let (latencies, errors) = gather spec responses in
      if is_empty errors then summary spec measured latencies else none
