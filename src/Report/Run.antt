-- ===== src/Report/Run.antt =====
-- `run` of tools/crs-compatibility-report.py: the statements that may raise, the processes that
-- they start, and the exit status of the tool.
pub mod Released
pub mod Ends
mod Tests
use envoy_modsecurity.Prelude.{
  ℕ, Bool, true, false, not, ◌&&◌, List, [], ◌∷◌, Option, none, some, if◌then◌else◌, ◌==◌,
}
use envoy_modsecurity.Prelude.Lists.{is_empty}
use envoy_modsecurity.Prelude.Steps.{Step, run_steps}
use envoy_modsecurity.Prelude.Text.{Str}
use envoy_modsecurity.Prelude.Int.{ℤ}
use envoy_modsecurity.Process.{Resource, absent, held, Exits, stop_process, release}
use envoy_modsecurity.Report.Results.{Results}
use envoy_modsecurity.Report.Qualification.{Run, qualification_failures}

abbrev pub expected_crs_test_count : ℕ
expected_crs_test_count = 5003

-- The arguments that the decision depends on.
pub record Args : Type 0 where
  pub include : Option Str
  pub exclude : Option Str
  pub apply_platform_overrides : Bool
  pub fail_on_test_failure : Bool

-- The statements that may raise. `count_rules` raises where the number of rule files is not the
-- expected one, `validate` where Envoy rejects the configuration, and `read_results` where go-ftw
-- has written no result.
pub data Action : Type 0 where
  require_envoy require_go_ftw require_albedo make_output_directory count_rules find_capabilities
        read_versions read_go_ftw_version :
      Action
  make_directory touch_audit_log open_envoy_log : Action
  prepare_corpus reserve_port start_albedo wait_for_albedo write_config write_bootstrap validate
        start_envoy wait_for_envoy discover_port write_ftw_config run_go_ftw read_results :
      Action
  read_envoy_log write_diagnostics index_rules read_metadata read_overrides write_results
        write_report :
      Action

-- What the run meets outside: where a statement raises, how the two processes end, go-ftw's status
-- and result, and the test ids in the corpus.
pub record Outside : Type 0 where
  pub fails : Action → Bool
  pub envoy : Exits
  pub albedo : Exits
  pub returncode : ℤ
  pub results : Results
  pub corpus_ids : List Str

pub record Held : Type 0 where
  pub directory : Resource
  pub envoy_log : Resource
  pub albedo : Resource
  pub envoy : Resource

abbrev pub nothing : Held
nothing = record { directory = absent; envoy_log = absent; albedo = absent; envoy = absent }

abbrev pub plain : Action → Step Action Held
plain a = record { action = a; effect = λ h. h }

-- Before the `with` statement.
abbrev pub first_steps : List (Step Action Held)
first_steps =
    plain require_envoy
    ∷ plain require_go_ftw
    ∷ plain require_albedo
    ∷ plain make_output_directory
    ∷ plain count_rules
    ∷ plain find_capabilities
    ∷ plain read_versions
    ∷ plain read_go_ftw_version
    ∷ []

-- In the `with` statement, before the `try` statement.
abbrev pub opening_steps : List (Step Action Held)
opening_steps =
    record { action = make_directory; effect = λ h. record h { directory = held } }
    ∷ plain touch_audit_log
    ∷ record { action = open_envoy_log; effect = λ h. record h { envoy_log = held } }
    ∷ []

-- The body of the `try` statement.
abbrev pub body_steps : List (Step Action Held)
body_steps =
    plain prepare_corpus
    ∷ plain reserve_port
    ∷ record { action = start_albedo; effect = λ h. record h { albedo = held } }
    ∷ plain wait_for_albedo
    ∷ plain write_config
    ∷ plain write_bootstrap
    ∷ plain validate
    ∷ record { action = start_envoy; effect = λ h. record h { envoy = held } }
    ∷ plain wait_for_envoy
    ∷ plain discover_port
    ∷ plain write_ftw_config
    ∷ plain run_go_ftw
    ∷ plain read_results
    ∷ []

-- From the end of the `finally` clause on, where all that the run holds is the directory: its last
-- statement reads Envoy's log, and an error of the body is raised again after `write_diagnostics`. A
-- statement that raises has the same end before the directory is removed as after it.
abbrev pub last_steps : List (Step Action Held)
last_steps =
    plain read_envoy_log
    ∷ plain write_diagnostics
    ∷ plain index_rules
    ∷ plain read_metadata
    ∷ plain read_overrides
    ∷ plain write_results
    ∷ plain write_report
    ∷ []

unfoldable pub run_list : Outside → List (Step Action Held) → Held → Bool × Held
unfolding run_steps
run_list o steps h = run_steps o.fails (λ a r. r) steps h

-- The `finally` clause: where a process cannot be ended, the rest of it is not run.
unfoldable pub finally : Outside → Held → Bool × Held
unfolding stop_process
finally o h =
    let (envoy_ended, envoy) = stop_process o.envoy h.envoy in
    let (albedo_ended, albedo) = stop_process o.albedo h.albedo in
    if not envoy_ended
    then (false, h)
    else if not albedo_ended
    then (false, record h { envoy = envoy })
    else (true, record h { envoy = envoy; albedo = albedo; envoy_log = release h.envoy_log })

-- The end of the `with` statement.
unfoldable pub leave : Held → Held
leave h = record h { directory = release h.directory }

-- `not args.include`
abbrev pub not_given : Option Str → Bool
not_given none = true
not_given (some s) = is_empty s

-- The call of `qualification_failures`.
abbrev pub qualification_run : Outside → Args → Run
qualification_run o args = record {
  results = o.results;
  returncode = o.returncode;
  expected_test_ids = o.corpus_ids;
  expected_test_count = expected_crs_test_count;
  full_run = not_given args.include && not_given args.exclude;
  apply_platform_overrides = args.apply_platform_overrides;
  fail_on_test_failure = args.fail_on_test_failure;
}

pub data Ended : Type 0 where
  returned : ℕ → Ended
  raised : Ended

abbrev pub verdict : Outside → Args → Ended
verdict o args =
    returned (if is_empty (qualification_failures (qualification_run o args)) then 0 else 1)

-- From the `try` statement on.
unfoldable pub run_opened : Outside → Args → Held → Ended × Held
run_opened o args h =
    let (completed, h₁) = run_list o body_steps h in
    let (stopped, h₂) = finally o h₁ in
    let (reported, h₃) = run_list o last_steps (leave h₂) in
    (if stopped && (completed && reported) then verdict o args else raised, leave h₂)

unfoldable pub run : Outside → Args → Ended × Held
run o args =
    let (began, h₁) = run_list o first_steps nothing in
    let (opened, h₂) = run_list o opening_steps h₁ in
    let rest = run_opened o args h₂ in
    if not began then (raised, h₁) else if not opened then (raised, leave h₂) else rest

-- The statement under `__name__ == "__main__"`.
unfoldable pub exit_status : Ended → ℕ
exit_status (returned n) = n
exit_status raised = 2
