-- ===== src/Benchmark/Envoy.antt =====
-- How tools/qualification-benchmark.py waits for Envoy, finds its listener and waits for the gauges
-- to return to zero.
pub mod Gauges
use envoy_modsecurity.Prelude.{
  ℕ, ◌+◌, Bool, true, false, not, ◌&&◌, ◌||◌, List, [], ◌∷◌, Option, none, some, if◌then◌else◌,
  ◌==◌, nat_eq, list_eq,
}
use mathlib.Core.List.{reverse}
use envoy_modsecurity.Prelude.Lists.{all, is_empty}
use envoy_modsecurity.Prelude.Dicts.{Dict, set_item, values}
use envoy_modsecurity.Prelude.Text.{Str, codes, starts_with}
use envoy_modsecurity.Prelude.Deadline.{until_deadline}
use envoy_modsecurity.Prelude.Int.{ℤ, is_zero}
use envoy_modsecurity.Prelude.Json.{Json}
use envoy_modsecurity.Admin.{Poll, Waited, wait_for_admin, discover_listener_port}

abbrev pub benchmark_wait_for_admin : (Str → Option ℤ) → List Poll → Waited
benchmark_wait_for_admin = wait_for_admin

abbrev pub qualification_listener_port : (status : ℕ) → Json → Option Json
qualification_listener_port = discover_listener_port (codes "modsecurity_qualification_listener")

-- `s.endswith(suffix)`
unfoldable pub ends_with : Str → Str → Bool
ends_with s suffix = starts_with (reverse s) (reverse suffix)

abbrev pub is_gauge : Str → Bool
is_gauge name =
    ends_with name (codes ".active_transactions")
    || ends_with name (codes ".modsecurity_buffer_bytes")

-- A round: the status of the reply, and the names and values of its statistics.
pub record StatsPoll : Type 0 where
  pub status : ℕ
  pub stats : List (Str × ℤ)

-- The dict comprehension over the statistics, from the dict so far.
unfoldable pub gauges_from : List (Str × ℤ) → Dict Str ℤ → Dict Str ℤ
unfolding set_item
gauges_from [] gauges = gauges
gauges_from ((name, value) ∷ stats) gauges =
    gauges_from stats (if is_gauge name then set_item name value gauges else gauges)

abbrev pub gauges : List (Str × ℤ) → Dict Str ℤ
gauges stats = gauges_from stats []

-- `last and all(value == 0 for value in last.values())`
unfoldable pub are_zero : Dict Str ℤ → Bool
unfolding all
are_zero d = not (is_empty d) && all is_zero (values d)

-- `none` is RuntimeError: a status other than 200, or the deadline.
unfoldable pub zero_modsecurity_gauges : List StatsPoll → Option (Dict Str ℤ)
zero_modsecurity_gauges [] = none
zero_modsecurity_gauges (poll ∷ polls) =
    let rest = zero_modsecurity_gauges polls in
    if poll.status == 200
    then (if are_zero (gauges poll.stats) then some (gauges poll.stats) else rest)
    else none

-- One round of the loop: an exception, the gauges, or on to the sleep.
unfoldable pub gauges_round : StatsPoll → Option (Option (Dict Str ℤ))
gauges_round poll =
    if poll.status == 200
    then (if are_zero (gauges poll.stats) then some (some (gauges poll.stats)) else none)
    else some none

-- REQUEST_TIMEOUT_SECONDS, in nanoseconds.
abbrev pub request_timeout : ℕ
request_timeout = 10_000_000_000

-- The call by the clock; the outer `none` means that 201 tests of the clock were not enough.
unfoldable pub await_zero_gauges :
    (clock : ℕ → ℕ) (poll : ℕ → StatsPoll) → Option (Option (Dict Str ℤ))
unfolding until_deadline gauges_round
await_zero_gauges clock poll =
    until_deadline gauges_round none clock poll (clock 0 + request_timeout) 201 0
