-- ===== src/Benchmark/Workload/Latency.antt =====
-- The order of the latencies that `run_workload` (tools/qualification-benchmark.py) reports.
use envoy_modsecurity.Prelude.{
  ℕ, zero, suc, ◌≤◌, ◌≡◌, refl, ◌∙◌, Bool, true, List, [], ◌∷◌, some, max, arith, leb, Option-cases,
  Bool-cases, inl, inr,
}
use envoy_modsecurity.Prelude.Lists.{get_elem?, is_empty, all}
use envoy_modsecurity.Prelude.Sorting.{
  sorted, IsSorted, sorted-IsSorted, leb-TotalOrder, all-sorted,
}
use envoy_modsecurity.Report.Timing.{percentile_index}
use envoy_modsecurity.Benchmark.Workload.{
  Response, Spec, gather, latency_percentile, doubled_median, maximum, Fractions, Measured,
  Workload, summary, run_workload,
}

all-get_elem? :
    (p : ℕ → Bool) (xs : List ℕ) (i v : ℕ) → all p xs ≡ true → get_elem? xs i ≡ some v → p v ≡ true
unfolding all
all-get_elem? p [] i v h k = cc
all-get_elem? p (x ∷ xs) zero v h k = ground arith
all-get_elem? p (x ∷ xs) (suc i) v h k = all-get_elem? p xs i v (ground arith) k

-- In a sorted list a later element is not less.
get_elem?-mono :
    (xs : List ℕ) (i j a b : ℕ)
    → IsSorted leb xs
    → i ≤ j
    → get_elem? xs i ≡ some a
    → get_elem? xs j ≡ some b
    → a ≤ b
get_elem?-mono [] i j a b s h p q = cc
get_elem?-mono (x ∷ xs) zero zero a b s h p q = ground arith
get_elem?-mono (x ∷ xs) zero (suc j) a b (low, s) h p q =
    ground (arith, all-get_elem? (leb x) xs j b low q)
get_elem?-mono (x ∷ xs) (suc i) zero a b s h p q = absurd (omega arith)
get_elem?-mono (x ∷ xs) (suc i) (suc j) a b (low, s) h p q =
    get_elem?-mono xs i j a b s (omega arith) p q

all_weaken :
    (m n : ℕ) (xs : List ℕ) → m ≤ n → all (λ x. leb x m) xs ≡ true → all (λ x. leb x n) xs ≡ true
unfolding all
all_weaken m n [] h k = refl
all_weaken m n (x ∷ xs) h k = ground (arith, all_weaken m n xs h)

all-maximum : (xs : List ℕ) → all (λ x. leb x (maximum xs)) xs ≡ true
unfolding all
all-maximum [] = refl
all-maximum (x ∷ xs) =
    ground (arith, all_weaken (maximum xs) (max x (maximum xs)) xs (omega arith) (all-maximum xs))

percentile_index_mono :
    (f g : ℕ → ℕ) (n : ℕ) → f n ≤ g n → percentile_index f n ≤ percentile_index g n
unfolding percentile_index
percentile_index_mono f g n h = omega arith

latency_percentile_mono :
    (f g : ℕ → ℕ) (values : List ℕ) (a b : ℕ)
    → ((n : ℕ) → f n ≤ g n)
    → latency_percentile f values ≡ some a
    → latency_percentile g values ≡ some b
    → a ≤ b
unfolding latency_percentile
latency_percentile_mono f g values a b le p q =
    get_elem?-mono (sorted leb values) _ _ a b (sorted-IsSorted leb leb-TotalOrder values)
      (percentile_index_mono f g _ (le _)) p q

latency_percentile-maximum :
    (f : ℕ → ℕ) (values : List ℕ) (a : ℕ)
    → latency_percentile f values ≡ some a
    → a ≤ maximum values
unfolding latency_percentile
latency_percentile-maximum f values a p =
    let bounded =
      all-get_elem? (λ x. leb x (maximum values)) (sorted leb values) _ a
        (all-sorted leb (λ x. leb x (maximum values)) values ∙ all-maximum values) p in
    ground arith

module _ {F : Type 0} (fractions : Fractions) (spec : Spec) (measured : Measured F) where
  summary_inv :
      (latencies : List ℕ) {w : Workload F}
      → summary fractions spec measured latencies ≡ some w
      → (latency_percentile fractions.p95 latencies ≡ some w.p95)
        × (latency_percentile fractions.p99 latencies ≡ some w.p99)
        × (w.maximum ≡ maximum latencies)
        × (w.requests ≡ spec.count)
  unfolding summary
  summary_inv latencies {w} h = elim (Option-cases (doubled_median latencies)) [
    | inl missing ↦ absurd (ground arith)
    | inr (m, is_m) ↦ elim (Option-cases (latency_percentile fractions.p95 latencies)) [
      | inl missing ↦ absurd (ground arith)
      | inr (a, is_a) ↦ elim (Option-cases (latency_percentile fractions.p99 latencies)) [
        | inl missing ↦ absurd (ground arith)
        | inr (b, is_b) ↦ ground arith
      ]
    ]
  ]

  summary_of :
      (responses : List Response) {w : Workload F}
      → run_workload fractions spec measured responses ≡ some w
      → summary fractions spec measured (gather spec responses).0 ≡ some w
  unfolding run_workload
  summary_of responses {w} h = elim (Bool-cases (is_empty (gather spec responses).1)) [
    | inl none_failed ↦ ground arith
    | inr failed ↦ absurd (ground arith)
  ]

  -- If the product for the p95 latency is never larger than that for the p99 latency, the p95
  -- latency of a measured workload is at most its p99 latency, that is at most its maximum, and
  -- its number of requests is the count that was asked for.
  pub run_workload_order :
      (responses : List Response) {w : Workload F}
      → ((n : ℕ) → fractions.p95 n ≤ fractions.p99 n)
      → run_workload fractions spec measured responses ≡ some w
      → (w.p95 ≤ w.p99) × (w.p99 ≤ w.maximum) × (w.requests ≡ spec.count)
  run_workload_order responses {w} le h =
      let latencies = (gather spec responses).0 in
      let (is_p95, is_p99, is_max, count) =
        summary_inv latencies {w = w} (summary_of responses h) in
      (
        latency_percentile_mono fractions.p95 fractions.p99 latencies w.p95 w.p99 le is_p95 is_p99,
        rw is_max (latency_percentile-maximum fractions.p99 latencies w.p99 is_p99),
        count,
      )
