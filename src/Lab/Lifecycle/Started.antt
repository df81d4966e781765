-- ===== src/Lab/Lifecycle/Started.antt =====
-- What a start of tools/owasp-crs-lab.py has taken, at whatever step it fails.
use envoy_modsecurity.Prelude.{◌≡◌, Bool, not, ◌&&◌, arith, if◌then◌else◌}
use envoy_modsecurity.Prelude.Steps.{run_steps}
use envoy_modsecurity.Process.{Resource, absent, held, released, release}
use envoy_modsecurity.Lab.Lifecycle.{
  Action, check_binary, make_directory, bind_upstream, create_thread, start_thread, write_config,
  write_bootstrap, validate, open_log, spawn_envoy, wait_for_admin, discover_port, bind_ui, Thread,
  no_thread, created, running, Outside, note_exit, start, start_steps, serve, run_lab,
}

abbrev pub held_if : Bool → Resource
held_if b = if b then held else absent

abbrev pub closed_if : Bool → Resource
closed_if b = if b then released else absent

module _ (o : Outside) where
  abbrev pub succeeds : Action → Bool
  succeeds a = not (o.fails a)

  -- How far the start gets: what it has taken.
  abbrev pub has_directory : Bool
  has_directory = succeeds check_binary && succeeds make_directory

  abbrev pub has_upstream : Bool
  has_upstream = has_directory && succeeds bind_upstream

  abbrev pub has_thread : Bool
  has_thread = has_upstream && succeeds create_thread

  abbrev pub thread_runs : Bool
  thread_runs = has_thread && succeeds start_thread

  abbrev pub has_log : Bool
  has_log =
      thread_runs
      && (succeeds write_config
          && (succeeds write_bootstrap && (succeeds validate && succeeds open_log)))

  abbrev pub has_envoy : Bool
  has_envoy = has_log && succeeds spawn_envoy

  abbrev pub has_ui : Bool
  has_ui = has_envoy && (succeeds wait_for_admin && (succeeds discover_port && succeeds bind_ui))

  abbrev pub started_thread : Thread
  started_thread = if thread_runs then running else if has_thread then created else no_thread

  pub run_lab_directory :
      (keep : Bool)
      → (run_lab o keep).temporary_directory ≡ (if keep then absent else held_if has_directory)
  unfolding run_lab start serve run_steps start_steps note_exit
  run_lab_directory keep = ground arith

  pub run_lab_upstream : (keep : Bool) → (run_lab o keep).upstream ≡ held_if has_upstream
  unfolding run_lab start serve run_steps start_steps note_exit
  run_lab_upstream keep = ground arith

  pub run_lab_ui : (keep : Bool) → (run_lab o keep).ui_server ≡ held_if has_ui
  unfolding run_lab start serve run_steps start_steps note_exit
  run_lab_ui keep = ground arith

  pub run_lab_thread : (keep : Bool) → (run_lab o keep).upstream_thread ≡ started_thread
  unfolding run_lab start serve run_steps start_steps note_exit
  run_lab_thread keep = ground arith

  pub run_lab_log : (keep : Bool) → (run_lab o keep).envoy_log ≡ held_if has_log
  unfolding run_lab start serve run_steps start_steps note_exit
  run_lab_log keep = ground arith

  -- Envoy may have exited by itself.
  pub run_lab_envoy : (keep : Bool) → release (run_lab o keep).envoy ≡ closed_if has_envoy
  unfolding run_lab start serve run_steps start_steps note_exit
  run_lab_envoy keep = ground arith
