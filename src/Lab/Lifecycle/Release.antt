-- ===== src/Lab/Lifecycle/Release.antt =====
-- What `main` of tools/owasp-crs-lab.py leaves behind, and when its stop waits forever.
use envoy_modsecurity.Prelude.{
  ◌≡◌, ◌≢◌, Bool, true, false, not, ◌&&◌, arith, if◌then◌else◌, Bool-cases, inl, inr, refl, ap, ◌∙◌,
  ◌⊎◌,
}
use envoy_modsecurity.Process.{absent, held, release}
use envoy_modsecurity.Lab.Lifecycle.{
  Thread, no_thread, created, running, joined, Runtime, Outside, Ending, returned, raised, blocked,
  stop_envoy, stop, stop_rest, stop_upstream, join_thread, remove_directory, is_running, close_ui,
  close_log, run_lab, main,
}
use envoy_modsecurity.Lab.Lifecycle.Started.{
  closed_if, has_directory, has_upstream, thread_runs, has_log, has_envoy, has_ui,
  run_lab_directory, run_lab_upstream, run_lab_thread, run_lab_log, run_lab_envoy, run_lab_ui,
}

-- The thread after `join`.
abbrev join : Thread → Thread
join running = joined
join t = t

module _ (o : Outside) (kill : o.stops_on_kill ≡ true) (cleanup : o.cleanup_raises ≡ false) where
  stop_envoy_lem : (r : Runtime) → stop_envoy o r ≡ (returned, record r { envoy = release r.envoy })
  unfolding stop_envoy
  stop_envoy_lem r = ground arith

  remove_directory_lem :
      (r : Runtime)
      → remove_directory o r
        ≡ (returned, record r { temporary_directory = release r.temporary_directory })
  unfolding remove_directory
  remove_directory_lem r = ground arith

stop_upstream_lem :
    (r : Runtime)
    → (r.upstream ≡ held → r.upstream_thread ≡ running)
    → stop_upstream r ≡ (returned, record r { upstream = release r.upstream })
unfolding stop_upstream
stop_upstream_lem r h = ground arith

join_thread_lem :
    (r : Runtime)
    → r.upstream_thread ≢ created
    → join_thread r ≡ (returned, record r { upstream_thread = join r.upstream_thread })
unfolding join_thread
join_thread_lem r h = ground arith

-- The runtime after a stop that returns.
abbrev stopped : Runtime → Runtime
stopped r = record {
  temporary_directory = release r.temporary_directory;
  upstream = release r.upstream;
  upstream_thread = join r.upstream_thread;
  envoy_log = release r.envoy_log;
  envoy = release r.envoy;
  ui_server = release r.ui_server;
}

module _ (o : Outside) (kill : o.stops_on_kill ≡ true) (cleanup : o.cleanup_raises ≡ false) where
  stop_lem :
      (r : Runtime)
      → (r.upstream ≡ held → r.upstream_thread ≡ running)
      → r.upstream_thread ≢ created
      → stop o r ≡ (returned, stopped r)
  unfolding stop stop_rest
  stop_lem r serving started =
      let r₁ = record (close_ui r) { envoy = release r.envoy } in
      let r₂ = record (close_log r₁) { upstream = release r.upstream } in
      let r₃ = record r₂ { upstream_thread = join r.upstream_thread } in
      rw
        (
          stop_envoy_lem o kill cleanup (close_ui r),
          stop_upstream_lem (close_log r₁) serving,
          join_thread_lem r₂ started,
          remove_directory_lem o kill cleanup r₃,
        )
        refl

  -- An upstream whose thread does not run is never shut down.
  stop-blocked :
      (r : Runtime)
      → r.upstream ≡ held
      → is_running r.upstream_thread ≡ false
      → stop o r ≡ (blocked, close_log (record (close_ui r) { envoy = release r.envoy }))
  unfolding stop stop_rest stop_upstream
  stop-blocked r bound idle = rw (stop_envoy_lem o kill cleanup (close_ui r), bound, idle) refl

-- What the start has taken is closed, joined, removed or has exited, and what it has not is absent.
pub record IsReleased (o : Outside) (keep : Bool) (r : Runtime) : Type 0 where
  pub directory : r.temporary_directory ≡ (if keep then absent else closed_if (has_directory o))
  pub upstream : r.upstream ≡ closed_if (has_upstream o)
  pub thread : r.upstream_thread ≡ (if thread_runs o then joined else no_thread)
  pub log : r.envoy_log ≡ closed_if (has_log o)
  pub envoy : r.envoy ≡ closed_if (has_envoy o)
  pub ui : r.ui_server ≡ closed_if (has_ui o)

-- The upstream is bound, and its thread is not started.
abbrev pub is_stuck : Outside → Bool
is_stuck o = has_upstream o && not (thread_runs o)

-- The stop waits forever, with the upstream bound and the temporary directory in place.
pub record IsBlocked (keep : Bool) (end : Ending × Runtime) : Type 0 where
  pub ending : end.0 ≡ blocked
  pub upstream : end.1.upstream ≡ held
  pub directory : end.1.temporary_directory ≡ (if keep then absent else held)

module _ (o : Outside) (keep : Bool) (kill : o.stops_on_kill ≡ true)
    (cleanup : o.cleanup_raises ≡ false) where
  stuck-IsBlocked : is_stuck o ≡ true → IsBlocked keep (main o keep)
  unfolding main
  stuck-IsBlocked stuck =
      let bound : (run_lab o keep).upstream ≡ held = rw (run_lab_upstream o keep) (ground arith) in
      let idle : is_running (run_lab o keep).upstream_thread ≡ false =
        rw (run_lab_thread o keep) (ground arith) in
      let ends = stop-blocked o kill cleanup (run_lab o keep) bound idle in
      record {
        ending = ap (λ e. e.0) ends;
        upstream = ap (λ e. e.1.upstream) ends ∙ bound;
        directory =
            ap (λ e. e.1.temporary_directory) ends ∙ run_lab_directory o keep ∙ ground arith;
      }

  other-IsReleased :
      is_stuck o ≡ false → ((main o keep).0 ≡ returned) × IsReleased o keep (main o keep).1
  unfolding main
  other-IsReleased free =
      let serving : (run_lab o keep).upstream ≡ held → (run_lab o keep).upstream_thread ≡ running =
        λ e. ground (arith, run_lab_upstream o keep, run_lab_thread o keep) in
      let started : (run_lab o keep).upstream_thread ≢ created =
        λ e. ground (arith, run_lab_thread o keep) in
      let ends = stop_lem o kill cleanup (run_lab o keep) serving started in
      (
        ap (λ e. e.0) ends,
        record {
          directory =
              ap (λ e. e.1.temporary_directory) ends ∙ ground (arith, run_lab_directory o keep);
          upstream = ap (λ e. e.1.upstream) ends ∙ ground (arith, run_lab_upstream o keep);
          thread = ap (λ e. e.1.upstream_thread) ends ∙ ground (arith, run_lab_thread o keep);
          log = ap (λ e. e.1.envoy_log) ends ∙ ground (arith, run_lab_log o keep);
          envoy = ap (λ e. e.1.envoy) ends ∙ run_lab_envoy o keep;
          ui = ap (λ e. e.1.ui_server) ends ∙ ground (arith, run_lab_ui o keep);
        },
      )

  -- If Envoy exits in time at least when it is killed and the removal of the temporary directory
  -- does not raise, the lab ends in one of two ways, at whatever step of the start or of serving
  -- something raises. Where the upstream is bound and its thread is not started, the stop waits
  -- forever, with the upstream bound and the temporary directory in place. Otherwise the stop
  -- returns, what the start has taken by then is closed, joined, removed or has exited, and what
  -- it has not taken is absent.
  pub main-IsReleased :
      ((is_stuck o ≡ true) × IsBlocked keep (main o keep))
      ⊎ ((is_stuck o ≡ false) × ((main o keep).0 ≡ returned) × IsReleased o keep (main o keep).1)
  main-IsReleased = elim (Bool-cases (is_stuck o)) [
    | inl stuck ↦ inl (stuck, stuck-IsBlocked stuck)
    | inr free ↦ let (ended, left) = other-IsReleased free in inr (free, ended, left)
  ]

-- If Envoy is held and outlives both terminate and kill, stop raises with Envoy still held, and
-- the log and the upstream stay as they were.
pub stop_raises :
    (o : Outside) (r : Runtime)
    → o.stops_on_terminate ≡ false
    → o.stops_on_kill ≡ false
    → r.envoy ≡ held
    → ((stop o r).0 ≡ raised)
      × ((stop o r).1.envoy ≡ held)
      × ((stop o r).1.envoy_log ≡ r.envoy_log)
      × ((stop o r).1.upstream ≡ r.upstream)
unfolding stop stop_envoy
stop_raises o r t k h = ground arith
