-- ===== src/Benchmark/Main.antt =====
-- `main` of tools/qualification-benchmark.py: the loads, the statements that may raise, the
-- resources that they hold, and the exit status.
pub mod Ends
use envoy_modsecurity.Prelude.{
  ℕ, zero, suc, ◌+◌, ◌-◌, max, min, Bool, true, false, not, ◌&&◌, ◌||◌, List, [], ◌∷◌, ◌++◌, Option,
  none, some, if◌then◌else◌,
}
use envoy_modsecurity.Prelude.Lists.{is_empty}
use envoy_modsecurity.Prelude.Steps.{Step, run_steps}
use envoy_modsecurity.Prelude.Text.{Str, codes}
use envoy_modsecurity.Process.{Resource, absent, held, released, Exits, stop_process, release}
use envoy_modsecurity.Benchmark.Workload.{
  Spec, Response, Fractions, Measured, Workload, run_workload,
}
use envoy_modsecurity.Benchmark.Violations.{Floats, Thresholds, violations}

-- The calls of `run_workload`, in their order.
pub data Load : Type 0 where
  warmup safe body attack pathological soak_0 soak_1 soak_2 : Load

-- `scaled`, with the product `int(value * scale)` as a parameter.
unfoldable pub scaled : (ℕ → ℕ) → ℕ → ℕ
scaled product value = max 1 (product value)

-- The arguments of the calls; the bodies that are sent do not matter here.
unfoldable pub load_spec : (ℕ → ℕ) → (concurrency : ℕ) → Load → Spec
unfolding scaled
load_spec product c warmup = record {
  name = codes "warmup";
  count = scaled product 100;
  concurrency = c;
  method = codes "GET";
  path = codes "/safe";
  expected_status = 200;
}
load_spec product c safe = record {
  name = codes "safe";
  count = scaled product 800;
  concurrency = c;
  method = codes "GET";
  path = codes "/safe";
  expected_status = 200;
}
load_spec product c body = record {
  name = codes "body";
  count = scaled product 500;
  concurrency = c;
  method = codes "POST";
  path = codes "/body";
  expected_status = 200;
}
load_spec product c attack = record {
  name = codes "attack";
  count = scaled product 300;
  concurrency = c;
  method = codes "POST";
  path = codes "/attack";
  expected_status = 403;
}
load_spec product c pathological = record {
  name = codes "pathological";
  count = scaled product 40;
  concurrency = min 4 c;
  method = codes "POST";
  path = codes "/pathological";
  expected_status = 200;
}
load_spec product c soak_0 = record {
  name = codes "soak-0";
  count = scaled product 250;
  concurrency = c;
  method = codes "POST";
  path = codes "/body";
  expected_status = 200;
}
load_spec product c soak_1 = record {
  name = codes "soak-1";
  count = scaled product 250;
  concurrency = c;
  method = codes "POST";
  path = codes "/body";
  expected_status = 200;
}
load_spec product c soak_2 = record {
  name = codes "soak-2";
  count = scaled product 250;
  concurrency = c;
  method = codes "POST";
  path = codes "/body";
  expected_status = 200;
}

pub data Action : Type 0 where
  check_binary make_output_directory start_upstream make_directory write_config write_bootstrap
        open_log :
      Action
  validate start_envoy wait_for_admin discover_port read_rss_baseline read_gauges read_rss_after :
      Action
  load : Load → Action
  write_json write_markdown : Action

-- The arguments, what the run meets outside, and what it measures.
pub record Outside (F : Type 0) : Type 0 where
  pub fails : Action → Bool
  pub envoy : Exits
  pub floats : Floats F
  pub fractions : Fractions
  pub thresholds : Thresholds F
  pub enforce : Bool
  pub concurrency : ℕ
  pub product : ℕ → ℕ
  pub responses : Load → List Response
  pub measured : Load → Measured F
  pub rss_baseline : ℕ
  pub rss_after_soak : ℕ

pub record Held : Type 0 where
  pub directory : Resource
  pub upstream : Resource
  pub log : Resource
  pub envoy : Resource

abbrev pub nothing : Held
nothing = record { directory = absent; upstream = absent; log = absent; envoy = absent }

abbrev pub plain : Action → Step Action Held
plain a = record { action = a; effect = λ h. h }

-- Before the `try` statement.
abbrev pub opening_steps : List (Step Action Held)
opening_steps =
    plain check_binary
    ∷ plain make_output_directory
    ∷ record { action = start_upstream; effect = λ h. record h { upstream = held } }
    ∷ record { action = make_directory; effect = λ h. record h { directory = held } }
    ∷ plain write_config
    ∷ plain write_bootstrap
    ∷ record { action = open_log; effect = λ h. record h { log = held } }
    ∷ []

-- The body of the `try` statement.
abbrev pub body_steps : List (Step Action Held)
body_steps =
    plain validate
    ∷ record { action = start_envoy; effect = λ h. record h { envoy = held } }
    ∷ plain wait_for_admin
    ∷ plain discover_port
    ∷ plain (load warmup)
    ∷ plain read_rss_baseline
    ∷ plain (load safe)
    ∷ plain (load body)
    ∷ plain (load attack)
    ∷ plain (load pathological)
    ∷ plain (load soak_0)
    ∷ plain (load soak_1)
    ∷ plain (load soak_2)
    ∷ plain read_gauges
    ∷ plain read_rss_after
    ∷ []

abbrev pub last_steps : List (Step Action Held)
last_steps = plain write_json ∷ plain write_markdown ∷ []

pub data Ended : Type 0 where
  returned : ℕ → Ended
  raised : Ended

-- The statement under `__name__ == "__main__"`.
unfoldable pub exit_status : Ended → ℕ
exit_status (returned n) = n
exit_status raised = 2

module _ {F : Type 0} (o : Outside F) where
  unfoldable pub measure : Load → Option (Workload F)
  measure l =
      run_workload o.fractions (load_spec o.product o.concurrency l) (o.measured l) (o.responses l)

  abbrev pub is_none {ℓ} : {A : Type ℓ} → Option A → Bool
  is_none none = true
  is_none (some a) = false

  -- A load raises where its call of `run_workload` does.
  unfoldable pub raises : Action → Bool
  raises (load l) = o.fails (load l) || is_none (measure l)
  raises a = o.fails a

  -- An entry of the dict `workloads`.
  abbrev pub entry : Str → Option (Workload F) → List (Str × Workload F)
  entry name none = []
  entry name (some w) = (name, w) ∷ []

  unfoldable pub workloads : List (Str × Workload F)
  workloads =
      entry (codes "safe_headers") (measure safe)
      ++ (entry (codes "request_body_4k") (measure body)
          ++ (entry (codes "blocked_attack") (measure attack)
              ++ entry (codes "pathological_regex") (measure pathological)))

  -- `max(0, rss_after_soak - rss_baseline)`
  abbrev pub rss_growth : ℕ
  rss_growth = o.rss_after_soak - o.rss_baseline

  abbrev pub passed : Bool
  passed = is_empty (violations o.floats o.thresholds workloads rss_growth)

  unfoldable pub run_list : List (Step Action Held) → Held → Bool × Held
  unfolding run_steps
  run_list steps h = run_steps raises (λ a r. r) steps h

  -- The `finally` clause, which ends where Envoy outlives `kill`.
  unfoldable pub finally : Held → Bool × Held
  finally h =
      let (ended, envoy) = stop_process o.envoy h.envoy in
      if ended
      then (true, record h { envoy = envoy; log = release h.log; upstream = release h.upstream })
      else (false, h)

  -- The end of the `with` statement.
  unfoldable pub leave : Held → Held
  leave h = record h { directory = release h.directory }

  -- From the `try` statement on.
  unfoldable pub run_opened : Held → Ended × Held
  run_opened h =
      let (completed, h₁) = run_list body_steps h in
      let (stopped, h₂) = finally h₁ in
      let (reported, h₃) = run_list last_steps (leave h₂) in
      (
        if stopped && (completed && reported)
            then returned (if o.enforce && not passed then 1 else 0)
            else raised,
        leave h₂,
      )

  unfoldable pub main : Ended × Held
  main =
      let (opened, h) = run_list opening_steps nothing in
      let rest = run_opened h in if opened then rest else (raised, leave h)
