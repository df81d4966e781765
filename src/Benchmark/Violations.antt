-- ===== src/Benchmark/Violations.antt =====
-- The thresholds that `main` of tools/qualification-benchmark.py checks. The floats are a type `F`,
-- of which nothing is assumed.
pub mod Within
use envoy_modsecurity.Prelude.{
  ℕ, Bool, true, false, ◌&&◌, List, [], ◌∷◌, ◌++◌, if◌then◌else◌, ◌==◌, nat_eq, list_eq,
}
use envoy_modsecurity.Prelude.Text.{Str, codes}
use envoy_modsecurity.Benchmark.Workload.{Workload}

-- The operations on floats: `a < b`, `ns / 1e6`, an integer as a float, `mib * 1048576`,
-- `bytes / 1048576` and the format `.2f`.
pub record Floats (F : Type 0) : Type 0 where
  pub less : F → F → Bool
  pub milliseconds : ℕ → F
  pub of_nat : ℕ → F
  pub bytes_of_mib : F → F
  pub mib_of_bytes : ℕ → F
  pub fixed : F → Str

pub record Thresholds (F : Type 0) : Type 0 where
  pub minimum_throughput_rps : F
  pub maximum_p99_ms : F
  pub maximum_pathological_p99_ms : F
  pub maximum_pathological_cpu_ms_per_request : F
  pub maximum_rss_growth_mib : F

pub data Violation (F : Type 0) : Type 0 where
  slow late costly : (name : Str) (found limit : F) → Violation F
  grown : (bytes : ℕ) (limit : F) → Violation F

-- `if test: violations.append(violation)`
unfoldable pub flag {ℓ} : {A : Type ℓ} → Bool → A → List A
flag test violation = if test then violation ∷ [] else []

module _ {F : Type 0} (floats : Floats F) where
  unfoldable pub message : Violation F → Str
  message (slow name found limit) =
      name
      ++ codes " throughput "
      ++ floats.fixed found
      ++ codes " rps is below "
      ++ floats.fixed limit
      ++ codes " rps"
  message (late name found limit) =
      name
      ++ codes " p99 "
      ++ floats.fixed found
      ++ codes " ms exceeds "
      ++ floats.fixed limit
      ++ codes " ms"
  message (costly name found limit) =
      name
      ++ codes " Envoy CPU "
      ++ floats.fixed found
      ++ codes " ms/request exceeds "
      ++ floats.fixed limit
      ++ codes " ms/request"
  message (grown bytes limit) =
      codes "RSS growth "
      ++ floats.fixed (floats.mib_of_bytes bytes)
      ++ codes " MiB exceeds "
      ++ floats.fixed limit
      ++ codes " MiB"

  module _ (limits : Thresholds F) where
    abbrev pub is_pathological : Str → Bool
    is_pathological name = name == codes "pathological_regex"

    -- `maximum_p99`
    abbrev pub maximum_p99 : Str → F
    maximum_p99 name =
        if is_pathological name then limits.maximum_pathological_p99_ms else limits.maximum_p99_ms

    -- The body of the loop over the workloads.
    unfoldable pub workload_violations : Str → Workload F → List (Violation F)
    unfolding flag
    workload_violations name w =
        flag (floats.less w.measured.throughput_rps limits.minimum_throughput_rps)
          (slow name w.measured.throughput_rps limits.minimum_throughput_rps)
        ++ (flag (floats.less (maximum_p99 name) (floats.milliseconds w.p99))
              (late name (floats.milliseconds w.p99) (maximum_p99 name))
            ++ flag
                (is_pathological name
                  && floats.less limits.maximum_pathological_cpu_ms_per_request
                      w.measured.cpu_ms_per_request)
                (costly name w.measured.cpu_ms_per_request
                  limits.maximum_pathological_cpu_ms_per_request))

    unfoldable pub all_violations : List (Str × Workload F) → List (Violation F)
    all_violations [] = []
    all_violations ((name, w) ∷ workloads) = workload_violations name w ++ all_violations workloads

    unfoldable pub violations : List (Str × Workload F) → (rss_growth : ℕ) → List (Violation F)
    violations workloads rss_growth =
        all_violations workloads
        ++ flag
            (floats.less (floats.bytes_of_mib limits.maximum_rss_growth_mib)
              (floats.of_nat rss_growth))
            (grown rss_growth limits.maximum_rss_growth_mib)
