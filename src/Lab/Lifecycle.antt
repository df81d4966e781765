-- ===== src/Lab/Lifecycle.antt =====
-- `LabRuntime.start`, `serve`, `stop` and `main` of tools/owasp-crs-lab.py: which resources are held,
-- at whatever step the start fails, and how the stop ends.
pub mod Started
pub mod Release
mod Tests
use envoy_modsecurity.Prelude.{Bool, true, false, not, List, [], ◌∷◌, if◌then◌else◌}
use envoy_modsecurity.Prelude.Steps.{Step, run_steps}
use envoy_modsecurity.Process.{Resource, absent, held, released, is_held, release}

-- The thread of the upstream, which runs `serve_forever` once it is started.
pub data Thread : Type 0 where
  no_thread created running joined : Thread

pub record Runtime : Type 0 where
  pub temporary_directory : Resource
  pub upstream : Resource
  pub upstream_thread : Thread
  pub envoy_log : Resource
  pub envoy : Resource
  pub ui_server : Resource

-- `__init__`
abbrev pub new_runtime : Runtime
new_runtime = record {
  temporary_directory = absent;
  upstream = absent;
  upstream_thread = no_thread;
  envoy_log = absent;
  envoy = absent;
  ui_server = absent;
}

-- The steps of `start` and `serve` that can raise, in their order, and an interrupt at them.
pub data Action : Type 0 where
  check_binary make_directory bind_upstream create_thread start_thread write_config write_bootstrap
        validate open_log spawn_envoy wait_for_admin discover_port bind_ui serve_forever :
      Action

-- What happens outside: where a step raises, where Envoy exits by itself, whether it exits in time
-- after `terminate` and after `kill`, and whether the removal of the temporary directory raises.
pub record Outside : Type 0 where
  pub fails : Action → Bool
  pub envoy_exits : Action → Bool
  pub stops_on_terminate : Bool
  pub stops_on_kill : Bool
  pub cleanup_raises : Bool

-- Envoy may have exited by the time of a step.
unfoldable pub note_exit : Outside → Action → Runtime → Runtime
note_exit o a r =
    if is_held r.envoy then (if o.envoy_exits a then record r { envoy = released } else r) else r

abbrev pub unchanged : Runtime → Runtime
unchanged r = r

-- `start`; `keep` is true where a work directory is given.
unfoldable pub start_steps : (keep : Bool) → List (Step Action Runtime)
start_steps keep =
    record { action = check_binary; effect = unchanged }
    ∷ record {
      action = make_directory;
      effect = λ r. if keep then r else record r { temporary_directory = held };
    }
    ∷ record { action = bind_upstream; effect = λ r. record r { upstream = held } }
    ∷ record { action = create_thread; effect = λ r. record r { upstream_thread = created } }
    ∷ record { action = start_thread; effect = λ r. record r { upstream_thread = running } }
    ∷ record { action = write_config; effect = unchanged }
    ∷ record { action = write_bootstrap; effect = unchanged }
    ∷ record { action = validate; effect = unchanged }
    ∷ record { action = open_log; effect = λ r. record r { envoy_log = held } }
    ∷ record { action = spawn_envoy; effect = λ r. record r { envoy = held } }
    ∷ record { action = wait_for_admin; effect = unchanged }
    ∷ record { action = discover_port; effect = unchanged }
    ∷ record { action = bind_ui; effect = λ r. record r { ui_server = held } }
    ∷ []

unfoldable pub start : Outside → (keep : Bool) → Runtime → Bool × Runtime
unfolding run_steps start_steps note_exit
start o keep r = run_steps o.fails (note_exit o) (start_steps keep) r

unfoldable pub serve : Outside → Runtime → Bool × Runtime
unfolding run_steps note_exit
serve o r =
    run_steps o.fails (note_exit o) (record { action = serve_forever; effect = unchanged } ∷ []) r

-- How `stop` ends: it returns, raises, or waits forever.
pub data Ending : Type 0 where
  returned raised blocked : Ending

-- A statement of `stop`, and the statements after it.
abbrev pub then_stop : Ending × Runtime → (Runtime → Ending × Runtime) → Ending × Runtime
then_stop (returned, r) rest = rest r
then_stop (raised, r) rest = (raised, r)
then_stop (blocked, r) rest = (blocked, r)

-- The server of the UI is closed, and the attribute is then None.
abbrev pub close_ui : Runtime → Runtime
close_ui r = record r { ui_server = release r.ui_server }

-- The block on Envoy: `terminate`, and `kill` after ten seconds, with a wait that raises.
unfoldable pub stop_envoy : Outside → Runtime → Ending × Runtime
stop_envoy o r =
    if is_held r.envoy
    then (if o.stops_on_terminate
        then (returned, record r { envoy = released })
        else if o.stops_on_kill
        then (returned, record r { envoy = released })
        else (raised, r))
    else (returned, r)

abbrev pub close_log : Runtime → Runtime
close_log r = record r { envoy_log = release r.envoy_log }

abbrev pub is_running : Thread → Bool
is_running running = true
is_running _ = false

-- `shutdown` and `server_close`: `shutdown` waits until `serve_forever` has ended, and forever where
-- it has never begun.
unfoldable pub stop_upstream : Runtime → Ending × Runtime
stop_upstream r =
    if is_held r.upstream
    then (if is_running r.upstream_thread
        then (returned, record r { upstream = released })
        else (blocked, r))
    else (returned, r)

-- `join`, which raises RuntimeError for a thread that was not started; after `shutdown` the thread
-- of a server ends.
unfoldable pub join_thread : Runtime → Ending × Runtime
join_thread r = elim r.upstream_thread [
  | created ↦ (raised, r)
  | running ↦ (returned, record r { upstream_thread = joined })
  | _ ↦ (returned, r)
]

unfoldable pub remove_directory : Outside → Runtime → Ending × Runtime
remove_directory o r =
    if is_held r.temporary_directory
    then (if o.cleanup_raises
        then (raised, r)
        else (returned, record r { temporary_directory = released }))
    else (returned, r)

-- What `stop` does after the block on Envoy.
unfoldable pub stop_rest : Outside → Runtime → Ending × Runtime
unfolding stop_upstream join_thread remove_directory
stop_rest o r =
    then_stop (stop_upstream (close_log r)) λ r₁. then_stop (join_thread r₁) (remove_directory o)

unfoldable pub stop : Outside → Runtime → Ending × Runtime
unfolding stop_envoy stop_rest
stop o r = then_stop (stop_envoy o (close_ui r)) (stop_rest o)

-- The body of the `try` statement of `main`, to where it returns or raises.
unfoldable pub run_lab : Outside → (keep : Bool) → Runtime
unfolding start serve
run_lab o keep = let (started, r) = start o keep new_runtime in if started then (serve o r).1 else r

-- `main`: `stop` runs whether `start` and `serve` return or raise.
unfoldable pub main : Outside → (keep : Bool) → Ending × Runtime
main o keep = stop o (run_lab o keep)
