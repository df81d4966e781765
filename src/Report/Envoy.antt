-- ===== src/Report/Envoy.antt =====
-- How tools/crs-compatibility-report.py waits for Albedo and Envoy, and finds Envoy's listener.
use envoy_modsecurity.Prelude.{
  ℕ, ◌+◌, ◌≤◌, ◌≡◌, refl, ◌∙◌, ap, Bool, false, List, [], ◌∷◌, Option, none, some, arith,
  if◌then◌else◌, ◌==◌, nat_eq,
}
use envoy_modsecurity.Prelude.Deadline.{
  IsClock, Begun, until_deadline, until_deadline_ends, over_rounds, polls_from,
}
use envoy_modsecurity.Admin.Clock.{startup_timeout, startup_pause}
use envoy_modsecurity.Prelude.Text.{Str, codes}
use envoy_modsecurity.Prelude.Int.{ℤ}
use envoy_modsecurity.Prelude.Json.{Json}
use envoy_modsecurity.Admin.{Poll, Waited, wait_for_admin, discover_listener_port}

-- A round of `wait_for_http`: whether the process runs, and the status of the request, `none` where
-- it raises an exception that is caught.
pub record HttpPoll : Type 0 where
  pub running : Bool
  pub status : Option ℕ

pub data HttpWaited : Type 0 where
  http_ready http_exited http_timed_out : HttpWaited

abbrev pub is_ok : Option ℕ → Bool
is_ok none = false
is_ok (some status) = status == 200

unfoldable pub wait_for_http : List HttpPoll → HttpWaited
wait_for_http [] = http_timed_out
wait_for_http (poll ∷ polls) =
    let rest = wait_for_http polls in
    if poll.running then (if is_ok poll.status then http_ready else rest) else http_exited

-- One round of the loop: an exception, the return, or on to the sleep.
unfoldable pub http_round : HttpPoll → Option HttpWaited
http_round poll =
    if poll.running then (if is_ok poll.status then some http_ready else none) else some http_exited

-- The call by the clock; `none` means that 601 tests of the clock were not enough.
unfoldable pub await_http : (clock : ℕ → ℕ) (poll : ℕ → HttpPoll) → Option HttpWaited
unfolding until_deadline http_round
await_http clock poll =
    until_deadline http_round http_timed_out clock poll (clock 0 + startup_timeout) 601 0

over_rounds-wait_for_http :
    (polls : List HttpPoll) → over_rounds http_round http_timed_out polls ≡ wait_for_http polls
unfolding over_rounds http_round wait_for_http
over_rounds-wait_for_http [] = refl
over_rounds-wait_for_http (poll ∷ polls) = ground (arith, over_rounds-wait_for_http polls)

-- The call ends at the latest after 600 rounds, with what the rounds give that begin before the
-- deadline.
pub await_http_ends :
    (clock : ℕ → ℕ) (poll : ℕ → HttpPoll)
    → IsClock startup_pause clock
    → (n : ℕ) × (n ≤ 600)
      × Begun clock (clock 0 + startup_timeout) 0 n
      × (await_http clock poll ≡ some (wait_for_http (polls_from poll n 0)))
unfolding await_http
await_http_ends clock poll is_clock =
    let (n, few, begun, ends) =
      until_deadline_ends http_round http_timed_out is_clock poll startup_timeout 600
        (omega arith) in
    (n, few, begun, ends ∙ ap some (over_rounds-wait_for_http (polls_from poll n 0)))

abbrev pub wait_for_envoy_admin : (Str → Option ℤ) → List Poll → Waited
wait_for_envoy_admin = wait_for_admin

abbrev pub regression_listener_port : (status : ℕ) → Json → Option Json
regression_listener_port = discover_listener_port (codes "owasp_crs_regression_listener")
