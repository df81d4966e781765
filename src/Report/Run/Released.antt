-- ===== src/Report/Run/Released.antt =====
-- What `run` of tools/crs-compatibility-report.py leaves behind.
use envoy_modsecurity.Prelude.{
  ◌≡◌, ◌≢◌, refl, inl, inr, true, false, arith, Bool-cases, nat_eq, list_eq,
}
use envoy_modsecurity.Process.{held, ends, stop_process-ends, release-released}
use envoy_modsecurity.Report.Run.{
  Args, Outside, Held, nothing, first_steps, opening_steps, body_steps, run_list, finally, leave,
  run_opened, run,
}

-- Nothing of the run is held.
pub record IsReleased (h : Held) : Type 0 where
  pub directory : h.directory ≢ held
  pub envoy_log : h.envoy_log ≢ held
  pub albedo : h.albedo ≢ held
  pub envoy : h.envoy ≢ held

finally-ends :
    (o : Outside) (h : Held)
    → ends o.envoy ≡ true
    → ends o.albedo ≡ true
    → ((finally o h).0 ≡ true) × IsReleased (leave (finally o h).1)
unfolding finally leave
finally-ends o h e a =
    let (envoy_ended, envoy_gone) = stop_process-ends o.envoy h.envoy e in
    let (albedo_ended, albedo_gone) = stop_process-ends o.albedo h.albedo a in
    rw (envoy_ended, albedo_ended)
      (
        refl,
        record {
          directory = release-released h.directory;
          envoy_log = release-released h.envoy_log;
          albedo = albedo_gone;
          envoy = envoy_gone;
        },
      )

pub first_steps-nothing : (o : Outside) → (run_list o first_steps nothing).1 ≡ nothing
unfolding run_list
first_steps-nothing o = ground arith

opening_fails :
    (o : Outside)
    → (run_list o opening_steps nothing).0 ≡ false
    → IsReleased (leave (run_list o opening_steps nothing).1)
unfolding run_list leave
opening_fails o h = ground arith

nothing-IsReleased : IsReleased nothing
nothing-IsReleased = record {
  directory = λ h. cc;
  envoy_log = λ h. cc;
  albedo = λ h. cc;
  envoy = λ h. cc;
}

run_opened-IsReleased :
    (o : Outside) (args : Args) (h : Held)
    → ends o.envoy ≡ true
    → ends o.albedo ≡ true
    → IsReleased (run_opened o args h).1
unfolding run_opened
run_opened-IsReleased o args h e a = (finally-ends o (run_list o body_steps h).1 e a).1

-- If Envoy and Albedo end, at the latest when they are killed, the run of the compatibility
-- report leaves no temporary directory, log or process held, at whatever statement it raises.
pub run-IsReleased :
    (o : Outside) (args : Args)
    → ends o.envoy ≡ true
    → ends o.albedo ≡ true
    → IsReleased (run o args).1
unfolding run
run-IsReleased o args e a =
    rw (first_steps-nothing o) (elim (Bool-cases (run_list o first_steps nothing).0) [
      | inr refused ↦ rw refused nothing-IsReleased
      | inl began ↦ rw began (elim (Bool-cases (run_list o opening_steps nothing).0) [
        | inr failed ↦ rw failed (opening_fails o failed)
        | inl opened ↦
            rw opened (run_opened-IsReleased o args (run_list o opening_steps nothing).1 e a)
      ])
    ])
