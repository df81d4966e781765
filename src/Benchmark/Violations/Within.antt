-- ===== src/Benchmark/Violations/Within.antt =====
-- What it means that the benchmark (tools/qualification-benchmark.py) finds no violation.
use envoy_modsecurity.Prelude.{
  ℕ, ◌≡◌, refl, ◌↔◌, Bool, true, false, ◌&&◌, List, [], ◌∷◌, ◌++◌, arith, nat_eq, list_eq,
  Bool-cases, inl, inr,
}
use envoy_modsecurity.Prelude.Text.{Str, codes, str_beq_iff}
use envoy_modsecurity.Benchmark.Workload.{Workload}
use envoy_modsecurity.Benchmark.Violations.{
  Floats, Thresholds, flag, is_pathological, maximum_p99, workload_violations, all_violations,
  violations,
}

append_nil : {A : Type 0} (xs ys : List A) → (xs ++ ys ≡ []) ↔ ((xs ≡ []) × (ys ≡ []))
append_nil [] ys = (λ h. (refl, h), λ h. h.1)
append_nil (x ∷ xs) ys = (λ h. cc, λ h. absurd (ground arith))

flag-nil : {A : Type 0} (test : Bool) (a : A) → (flag test a ≡ []) ↔ (test ≡ false)
unfolding flag
flag-nil true a = (λ h. cc, λ h. cc)
flag-nil false a = (λ h. refl, λ h. refl)

module _ {F : Type 0} (floats : Floats F) (limits : Thresholds F) where
  -- A workload that is fast enough, answers in time and, where it is the pathological one, costs no
  -- more than is allowed.
  pub record WorkloadIsWithin (name : Str) (w : Workload F) : Type 0 where
    pub throughput : floats.less w.measured.throughput_rps limits.minimum_throughput_rps ≡ false
    pub p99 :
        (name ≡ codes "pathological_regex" → ⊥)
        → floats.less limits.maximum_p99_ms (floats.milliseconds w.p99) ≡ false
    pub pathological_p99 :
        name ≡ codes "pathological_regex"
        → floats.less limits.maximum_pathological_p99_ms (floats.milliseconds w.p99) ≡ false
    pub pathological_cpu :
        name ≡ codes "pathological_regex"
        → floats.less limits.maximum_pathological_cpu_ms_per_request w.measured.cpu_ms_per_request
          ≡ false

  abbrev pub AreWithin : List (Str × Workload F) → Type 0
  AreWithin [] = Unit
  AreWithin ((name, w) ∷ workloads) = WorkloadIsWithin name w × AreWithin workloads

  pub record IsWithin (workloads : List (Str × Workload F)) (rss_growth : ℕ) : Type 0 where
    pub each : AreWithin workloads
    pub growth :
        floats.less (floats.bytes_of_mib limits.maximum_rss_growth_mib) (floats.of_nat rss_growth)
        ≡ false

  workload_tests :
      (name : Str) (w : Workload F)
      → (workload_violations floats limits name w ≡ []) ↔ (
          (floats.less w.measured.throughput_rps limits.minimum_throughput_rps ≡ false)
          × (floats.less (maximum_p99 floats limits name) (floats.milliseconds w.p99) ≡ false)
          × ((is_pathological floats limits name
                && floats.less limits.maximum_pathological_cpu_ms_per_request
                    w.measured.cpu_ms_per_request)
              ≡ false))
  unfolding workload_violations flag
  workload_tests name w = ground arith

  not_pathological :
      (name : Str) {f : F}
      → (is_pathological floats limits name ≡ true → ⊥)
      → floats.less (maximum_p99 floats limits name) f ≡ false
      → floats.less limits.maximum_p99_ms f ≡ false
  not_pathological name h k = elim (Bool-cases (is_pathological floats limits name)) [
    | inl named ↦ absurd (h named)
    | inr other ↦ ground arith
  ]

  pathological :
      (name : Str) {f : F}
      → is_pathological floats limits name ≡ true
      → floats.less (maximum_p99 floats limits name) f ≡ false
      → floats.less limits.maximum_pathological_p99_ms f ≡ false
  pathological name h k = ground arith

  workload_violations-nil :
      (name : Str) (w : Workload F)
      → workload_violations floats limits name w ≡ []
      → WorkloadIsWithin name w
  workload_violations-nil name w h =
      let (fast, in_time, cheap) = (workload_tests name w).0 h in
      let same = str_beq_iff name (codes "pathological_regex") in
      record {
        throughput = fast;
        p99 = λ other. not_pathological name (λ p. other (same.0 p)) in_time;
        pathological_p99 = λ p. pathological name (same.1 p) in_time;
        pathological_cpu = λ p. ground (arith, same.1 p);
      }

  WorkloadIsWithin-violations :
      (name : Str) (w : Workload F)
      → WorkloadIsWithin name w
      → workload_violations floats limits name w ≡ []
  WorkloadIsWithin-violations name w h =
      let same = str_beq_iff name (codes "pathological_regex") in
      elim (Bool-cases (is_pathological floats limits name)) [
        | inl named ↦
            let in_time = h.pathological_p99 (same.0 named) in
            let cheap = h.pathological_cpu (same.0 named) in
            let fast = h.throughput in (workload_tests name w).1 (fast, ground arith, ground arith)
        | inr other ↦
            let in_time = h.p99 (λ p. absurd (ground (arith, same.1 p))) in
            let fast = h.throughput in (workload_tests name w).1 (fast, ground arith, ground arith)
      ]

  all_violations-nil :
      (workloads : List (Str × Workload F))
      → (all_violations floats limits workloads ≡ []) ↔ AreWithin workloads
  unfolding all_violations
  all_violations-nil [] = (λ h. tt, λ h. refl)
  all_violations-nil ((name, w) ∷ workloads) =
      let (split, merge) =
        append_nil (workload_violations floats limits name w)
          (all_violations floats limits workloads) in
      let (rest, rest') = all_violations-nil workloads in
      (
        λ h. (workload_violations-nil name w (split h).0, rest (split h).1),
        λ (a : WorkloadIsWithin name w × AreWithin workloads).
            merge (WorkloadIsWithin-violations name w a.0, rest' a.1),
      )

  -- The benchmark finds no violation exactly when every workload has at least the minimum
  -- throughput and at most the maximum p99 latency, which is a limit of its own for the
  -- pathological workload, the pathological workload costs at most the maximum CPU time per
  -- request, and the memory has grown by at most the maximum.
  pub violations-IsWithin :
      (workloads : List (Str × Workload F)) (rss_growth : ℕ)
      → (violations floats limits workloads rss_growth ≡ []) ↔ IsWithin workloads rss_growth
  unfolding violations
  violations-IsWithin workloads rss_growth =
      let (split, merge) = append_nil (all_violations floats limits workloads) _ in
      let (each, each') = all_violations-nil workloads in
      let (small, small') = flag-nil _ _ in
      (
        λ h. record { each = each (split h).0; growth = small (split h).1 },
        λ a. merge (each' a.each, small' a.growth),
      )
