-- ===== src/Lab/Lifecycle/Tests.antt =====
-- Runs of the lab's life cycle (tools/owasp-crs-lab.py), and its theorem at one.
use envoy_modsecurity.Prelude.{◌≡◌, ◌⊎◌, refl, true, false}
use envoy_modsecurity.Prelude.Steps.{run_steps}
use envoy_modsecurity.Lab.Lifecycle.{
  Outside, start_thread, validate, returned, blocked, note_exit, start, start_steps, stop,
  stop_envoy, stop_rest, stop_upstream, run_lab, main,
}
use envoy_modsecurity.Lab.Lifecycle.Release.{is_stuck, IsBlocked, IsReleased, main-IsReleased}

-- Envoy rejects its configuration.
abbrev failing : Outside
failing = record {
  fails = elim [ validate ↦ true | _ ↦ false ];
  envoy_exits = λ a. false;
  stops_on_terminate = false;
  stops_on_kill = true;
  cleanup_raises = false;
}

main-IsReleased_example :
    ((is_stuck failing ≡ true) × IsBlocked false (main failing false))
    ⊎ ((is_stuck failing ≡ false)
        × ((main failing false).0 ≡ returned)
        × IsReleased failing false (main failing false).1)
main-IsReleased_example = main-IsReleased failing false refl refl

-- No thread can be started.
abbrev no_threads : Outside
no_threads = record failing { fails = elim [ start_thread ↦ true | _ ↦ false ] }

blocked_test : (is_stuck no_threads ≡ true) × ((main no_threads false).0 ≡ blocked)
unfolding main run_lab start start_steps run_steps note_exit stop stop_envoy stop_rest stop_upstream
blocked_test = (refl, refl)
