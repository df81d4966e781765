-- ===== src/Report/Run/Ends.antt =====
-- What the exit status of tools/crs-compatibility-report.py shows.
use envoy_modsecurity.Prelude.{
  List, ◌≡◌, refl, ◌↔◌, ◌⊎◌, inl, inr, Bool, true, ◌&&◌, Mem, arith, if◌then◌else◌, Bool-cases,
  nat_eq, list_eq,
}
use envoy_modsecurity.Prelude.Lists.{is_empty, is_empty_iff}
use envoy_modsecurity.Prelude.Steps.{Step, none_raises, run_steps-none_raises, run_steps-after_all}
use envoy_modsecurity.Prelude.Text.{Str, codes}
use envoy_modsecurity.Process.{held, ends, stop_process_held}
use envoy_modsecurity.Report.Qualification.{ids, reviewed_platform_ignores, qualification_failures}
use envoy_modsecurity.Report.Qualification.Accepted.{IsAccepted}
use envoy_modsecurity.Report.Qualification.Decides.{qualification_failures-IsAccepted}
use envoy_modsecurity.Report.Qualification.Complete.{full_run_succeeds}
use envoy_modsecurity.Report.Run.{
  Args, Outside, Held, nothing, Action, first_steps, opening_steps, body_steps, last_steps,
  run_list, finally, leave, not_given, qualification_run, run_opened, run, exit_status,
}
use envoy_modsecurity.Report.Run.Released.{first_steps-nothing}

-- No statement of the run raises, and the two processes end.
pub record Completes (o : Outside) : Type 0 where
  pub first : none_raises o.fails first_steps ≡ true
  pub opening : none_raises o.fails opening_steps ≡ true
  pub body : none_raises o.fails body_steps ≡ true
  pub last : none_raises o.fails last_steps ≡ true
  pub envoy : ends o.envoy ≡ true
  pub albedo : ends o.albedo ≡ true

-- The processes after the body, if none of its statements raises.
body_state :
    (o : Outside)
    → none_raises o.fails opening_steps ≡ true
    → none_raises o.fails body_steps ≡ true
    → ((run_list o body_steps (run_list o opening_steps nothing).1).1.envoy ≡ held)
      × ((run_list o body_steps (run_list o opening_steps nothing).1).1.albedo ≡ held)
unfolding run_list
body_state o opening body =
    rw (run_steps-after_all o.fails opening_steps nothing opening)
      (rw (run_steps-after_all o.fails body_steps _ body) (refl, refl))

finally_held :
    (o : Outside) (h : Held)
    → h.envoy ≡ held
    → h.albedo ≡ held
    → (finally o h).0 ≡ (ends o.envoy && ends o.albedo)
unfolding finally
finally_held o h e a =
    rw (e, a) (ground (arith, stop_process_held o.envoy, stop_process_held o.albedo))

run_list_ok :
    (o : Outside) (steps : List (Step Action Held)) (h : Held)
    → (run_list o steps h).0 ≡ none_raises o.fails steps
unfolding run_list
run_list_ok o steps h = run_steps-none_raises o.fails (λ a r. r) steps h

-- The exit status is 0 where all of these hold.
succeeds : (o : Outside) (args : Args) → Bool
succeeds o args =
    none_raises o.fails first_steps
    && none_raises o.fails opening_steps
    && none_raises o.fails body_steps
    && none_raises o.fails last_steps
    && ends o.envoy
    && ends o.albedo
    && is_empty (qualification_failures (qualification_run o args))

run_opened-zero :
    (o : Outside) (args : Args) (h : Held)
    → exit_status (run_opened o args h).0 ≡ (
        if (finally o (run_list o body_steps h).1).0
          && (none_raises o.fails body_steps && none_raises o.fails last_steps)
        then (if is_empty (qualification_failures (qualification_run o args)) then 0 else 1)
        else 2)
unfolding run_opened exit_status
run_opened-zero o args h = ground (
  arith,
  run_list_ok o body_steps h,
  run_list_ok o last_steps (leave (finally o (run_list o body_steps h).1).1),
)

abbrev opened_state : Outside → Held
opened_state o = (run_list o opening_steps nothing).1

run_status :
    (o : Outside) (args : Args)
    → exit_status (run o args).0 ≡ (
        if none_raises o.fails first_steps && none_raises o.fails opening_steps
        then exit_status (run_opened o args (opened_state o)).0
        else 2)
unfolding run exit_status
run_status o args =
    rw (first_steps-nothing o)
      (ground (arith, run_list_ok o first_steps nothing, run_list_ok o opening_steps nothing))

body_stops :
    (o : Outside)
    → none_raises o.fails opening_steps ≡ true
    → none_raises o.fails body_steps ≡ true
    → (finally o (run_list o body_steps (opened_state o)).1).0 ≡ (ends o.envoy && ends o.albedo)
body_stops o opening body =
    let (envoy, albedo) = body_state o opening body in finally_held o _ envoy albedo

run_zero : (o : Outside) (args : Args) → (exit_status (run o args).0 ≡ 0) ↔ (succeeds o args ≡ true)
unfolding succeeds
run_zero o args =
    rw (run_status o args, run_opened-zero o args (opened_state o))
      (elim (Bool-cases (none_raises o.fails opening_steps)) [
        | inr failed ↦ ground arith
        | inl opening ↦ elim (Bool-cases (none_raises o.fails body_steps)) [
          | inr failed ↦ ground arith
          | inl body ↦ rw (body_stops o opening body) (ground arith)
        ]
      ])

all_hold :
    (o : Outside) (args : Args)
    → Completes o
    → is_empty (qualification_failures (qualification_run o args)) ≡ true
    → succeeds o args ≡ true
unfolding succeeds
all_hold o args c e = simp (c.first, c.opening, c.body, c.last, c.envoy, c.albedo, e)

-- The compatibility report's exit status is 0 exactly when no statement of the run raises, Envoy
-- and Albedo end, at the latest when they are killed, and the qualification accepts the run with
-- go-ftw's status and results and the test ids of the corpus.
pub run_zero-IsAccepted :
    (o : Outside) (args : Args)
    → (exit_status (run o args).0 ≡ 0) ↔ (Completes o × IsAccepted (qualification_run o args))
unfolding succeeds
run_zero-IsAccepted o args =
    let accepted = qualification_failures-IsAccepted (qualification_run o args) in
    let none_left = is_empty_iff (qualification_failures (qualification_run o args)) in
    let (forward, back) = run_zero o args in
    (
      λ e.
          let s = forward e in
          (
            record {
              first = ground arith;
              opening = ground arith;
              body = ground arith;
              last = ground arith;
              envoy = ground arith;
              albedo = ground arith;
            },
            accepted.0 (none_left.0 (ground arith)),
          ),
      λ (p : Completes o × IsAccepted (qualification_run o args)).
          back (all_hold o args p.0 (none_left.1 (accepted.1 p.1))),
    )

-- If the compatibility report's exit status is 0, in a run that selects no tests and in which
-- test failures count, every test id of the corpus succeeded or is a reviewed platform exclusion
-- that was ignored.
pub run_zero_succeeds :
    (o : Outside) (args : Args) (id : Str)
    → exit_status (run o args).0 ≡ 0
    → not_given args.include ≡ true
    → not_given args.exclude ≡ true
    → args.fail_on_test_failure ≡ true
    → Mem id o.corpus_ids
    → Mem id (ids (qualification_run o args) (codes "success"))
      ⊎ (Mem id (ids (qualification_run o args) (codes "ignored"))
          × Mem id reviewed_platform_ignores)
run_zero_succeeds o args id e include exclude strict m =
    full_run_succeeds (qualification_run o args) id (rw (include, exclude) refl) strict
      ((qualification_failures-IsAccepted (qualification_run o args)).1
        ((run_zero-IsAccepted o args).0 e).1)
      m
