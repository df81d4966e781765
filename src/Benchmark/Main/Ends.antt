-- ===== src/Benchmark/Main/Ends.antt =====
-- What the exit status of tools/qualification-benchmark.py shows, and what `main` leaves behind.
use envoy_modsecurity.Prelude.{
  ◌≡◌, ◌≢◌, ◌∙◌, ◌↔◌, true, false, not, ◌&&◌, List, [], Option, none, some, arith, Bool-cases, inl,
  inr, nat_eq, if◌then◌else◌, refl, ℕ, Bool,
}
use envoy_modsecurity.Prelude.Lists.{all, is_empty_iff}
use envoy_modsecurity.Prelude.Steps.{Step, none_raises, run_steps-none_raises}
use envoy_modsecurity.Process.{held, ends, stop_process-ends, release-released}
use envoy_modsecurity.Benchmark.Workload.{Workload}
use envoy_modsecurity.Benchmark.Workload.Expected.{all_expected, run_workload-all_expected}
use envoy_modsecurity.Benchmark.Violations.Within.{IsWithin, violations-IsWithin}
use envoy_modsecurity.Benchmark.Main.{
  Load, warmup, load_spec, Action, Outside, Held, nothing, opening_steps, body_steps, returned,
  raised, exit_status, measure, raises, is_none, workloads, rss_growth, passed, run_list, finally,
  leave, run_opened, main,
}

-- Nothing of the run is held.
pub record IsReleased (h : Held) : Type 0 where
  pub directory : h.directory ≢ held
  pub upstream : h.upstream ≢ held
  pub log : h.log ≢ held
  pub envoy : h.envoy ≢ held

two_not_zero : exit_status raised ≡ 0 → ⊥
unfolding exit_status
two_not_zero h = ground arith

returned_or_raised :
    (completed : Bool) (n : ℕ)
    → exit_status (if completed then returned n else raised) ≢ 2
    → exit_status (if completed then returned n else raised) ≡ n
unfolding exit_status
returned_or_raised true n e = refl
returned_or_raised false n e = absurd (e refl)

two : exit_status raised ≡ 2
unfolding exit_status
two = refl

module _ {F : Type 0} (o : Outside F) where
  finally-IsReleased : (h : Held) → ends o.envoy ≡ true → IsReleased (leave o (finally o h).1)
  unfolding finally leave
  finally-IsReleased h e =
      let (ended, gone) = stop_process-ends o.envoy h.envoy e in
      rw ended (record {
        directory = release-released h.directory;
        upstream = release-released h.upstream;
        log = release-released h.log;
        envoy = gone;
      })

  run_list_ok :
      (steps : List (Step Action Held)) (h : Held)
      → (run_list o steps h).0 ≡ none_raises (raises o) steps
  unfolding run_list
  run_list_ok steps h = run_steps-none_raises (raises o) (λ a r. r) steps h

  -- If Envoy ends, at the latest when it is killed, and no statement before the try statement
  -- raises, the benchmark leaves no temporary directory, upstream, log or process held, at
  -- whatever later statement it raises.
  pub main_opened-IsReleased :
      ends o.envoy ≡ true → none_raises (raises o) opening_steps ≡ true → IsReleased (main o).1
  unfolding main run_opened
  main_opened-IsReleased e opening =
      rw (run_list_ok opening_steps nothing ∙ opening)
        (finally-IsReleased (run_list o body_steps (run_list o opening_steps nothing).1).1 e)

  run_opened_zero :
      (h : Held)
      → exit_status (run_opened o h).0 ≡ 0
      → (none_raises (raises o) body_steps ≡ true) × ((o.enforce && not (passed o)) ≡ false)
  unfolding run_opened exit_status
  run_opened_zero h e = ground (arith, run_list_ok body_steps h)

  main_zero :
      exit_status (main o).0 ≡ 0
      → (none_raises (raises o) body_steps ≡ true) × ((o.enforce && not (passed o)) ≡ false)
  unfolding main
  main_zero e = elim (Bool-cases (run_list o opening_steps nothing).0) [
    | inl opened ↦ run_opened_zero (run_list o opening_steps nothing).1 (rw opened at e)
    | inr failed ↦ absurd (two_not_zero (rw failed at e))
  ]

  run_opened_ended :
      (h : Held)
      → exit_status (run_opened o h).0 ≢ 2
      → exit_status (run_opened o h).0 ≡ (if o.enforce && not (passed o) then 1 else 0)
  unfolding run_opened exit_status
  run_opened_ended h e = returned_or_raised _ _ e

  -- Where no statement raises, the thresholds and the arguments decide the exit status.
  pub main_ended :
      exit_status (main o).0 ≢ 2
      → exit_status (main o).0 ≡ (if o.enforce && not (passed o) then 1 else 0)
  unfolding main
  main_ended e = elim (Bool-cases (run_list o opening_steps nothing).0) [
    | inl opened ↦
        rw opened (run_opened_ended (run_list o opening_steps nothing).1 (rw opened at e))
    | inr failed ↦ absurd (e (rw failed two))
  ]

  load_measured :
      (l : Load) → none_raises (raises o) body_steps ≡ true → is_none o (measure o l) ≡ false
  unfolding all raises
  load_measured warmup h = ground arith
  load_measured l h = ground arith

  expected_of :
      (l : Load)
      → o.responses l ≢ []
      → (measure o l ≢ none)
        ↔ (all_expected (load_spec o.product o.concurrency l) (o.responses l) ≡ true)
  unfolding measure
  expected_of l some_responses =
      run_workload-all_expected o.fractions (load_spec o.product o.concurrency l) (o.measured l)
        (o.responses l) some_responses

  not_none : (m : Option (Workload F)) → is_none o m ≡ false → m ≢ none
  not_none none h = cc
  not_none (some w) h = λ e. cc

  -- Where thresholds are enforced, the benchmark's exit status 0 means that the measured
  -- workloads and the growth of the resident memory are within the thresholds, and that in a load
  -- with responses, any of them, all replies had the expected status.
  pub main_zero_lem :
      (l : Load)
      → o.enforce ≡ true
      → exit_status (main o).0 ≡ 0
      → o.responses l ≢ []
      → IsWithin o.floats o.thresholds (workloads o) (rss_growth o)
        × (all_expected (load_spec o.product o.concurrency l) (o.responses l) ≡ true)
  main_zero_lem l enforced e some_responses =
      let (completed, verdict) = main_zero e in
      let is_passed : passed o ≡ true = ground arith in
      (
        (violations-IsWithin o.floats o.thresholds (workloads o) (rss_growth o)).0
            ((is_empty_iff _).0 is_passed),
        (expected_of l some_responses).0 (not_none (measure o l) (load_measured l completed)),
      )
