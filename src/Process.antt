-- ===== src/Process.antt =====
-- The processes and other resources that the tools hold, and how a process is ended: `stop_process`
-- of tools/crs-compatibility-report.py, and the same statements in the two other tools.
use envoy_modsecurity.Prelude.{◌≡◌, ◌≢◌, Bool, true, false, ◌||◌, arith, if◌then◌else◌}

-- An attribute or variable that is None, a live resource, or one that is closed, joined or has
-- exited.
pub data Resource : Type 0 where
  absent held released : Resource

abbrev pub is_held : Resource → Bool
is_held held = true
is_held _ = false

-- Whether a process has exited by itself, and whether it exits in time after `terminate` and after
-- `kill`.
pub record Exits : Type 0 where
  pub by_itself : Bool
  pub on_terminate : Bool
  pub on_kill : Bool

-- False where the wait after `kill` raises TimeoutExpired.
unfoldable pub stop_process : Exits → Resource → Bool × Resource
stop_process e absent = (true, absent)
stop_process e released = (true, released)
stop_process e held =
    if e.by_itself
    then (true, released)
    else if e.on_terminate
    then (true, released)
    else if e.on_kill
    then (true, released)
    else (false, held)

-- `close`, `join` or `cleanup` of what is there.
abbrev pub release : Resource → Resource
release absent = absent
release held = released
release released = released

-- The process ends in time, at the latest when it is killed.
abbrev pub ends : Exits → Bool
ends e = e.by_itself || e.on_terminate || e.on_kill

pub stop_process-ends :
    (e : Exits) (r : Resource)
    → ends e ≡ true
    → ((stop_process e r).0 ≡ true) × ((stop_process e r).1 ≢ held)
unfolding stop_process
stop_process-ends e absent h = ground arith
stop_process-ends e released h = ground arith
stop_process-ends e held h = ground arith

pub stop_process_held : (e : Exits) → (stop_process e held).0 ≡ ends e
unfolding stop_process
stop_process_held e = ground arith

pub release-released : (r : Resource) → release r ≢ held
release-released absent h = cc
release-released held h = cc
release-released released h = cc
