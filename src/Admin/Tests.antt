-- ===== src/Admin/Tests.antt =====
-- The theorems on Envoy's admin address and listeners, at small inputs.
use envoy_modsecurity.Prelude.{
  ℕ, zero, suc, ◌*◌, arith, ◌≡◌, ◌↔◌, refl, true, List, [], ◌∷◌, Option, none, some, Mem,
  if◌then◌else◌, ◌==◌, nat_eq, list_eq,
}
use envoy_modsecurity.Prelude.Lists.{any, all}
use envoy_modsecurity.Prelude.Dicts.{get}
use envoy_modsecurity.Prelude.Equality.{list_beq}
use envoy_modsecurity.Prelude.Text.{Str, codes, is_space}
use envoy_modsecurity.Prelude.Split.{strip, rsplit_once, drop_while}
use envoy_modsecurity.Prelude.Int.{ℤ, pos}
use envoy_modsecurity.Prelude.Json.{Json, text, number, array, object, nil, cons, field, end}
use envoy_modsecurity.Admin.{
  Poll, admin_ready, parse_address, answer_at, poll_address, wait_for_admin, find_listener,
  discover_listener_port,
}
use envoy_modsecurity.Admin.Ready.{IsReady, wait_for_admin-IsReady, answers}
use envoy_modsecurity.Prelude.Deadline.{IsClock}
use envoy_modsecurity.Admin.Clock.{
  lab_startup_timeout, startup_pause, lab_await_admin, await_admin_finds,
}
use envoy_modsecurity.Admin.Listing.{Lists, discover_listener_port_lem}

abbrev sample_int : Str → Option ℤ
sample_int s = if s == codes "9901" then some (pos 9901) else none

abbrev sample_polls : List Poll
sample_polls =
    record { running = true; address_file = none; ready = λ h p. none }
    ∷ record { running = true; address_file = some (codes "[::1]:9901\n"); ready = λ h p. some 200 }
    ∷ []

sample_ready : wait_for_admin sample_int sample_polls ≡ admin_ready (codes "::1") (pos 9901)
unfolding wait_for_admin poll_address answer_at parse_address rsplit_once strip drop_while is_space
    list_beq
sample_ready = refl

wait_for_admin-IsReady_example :
    (poll : Poll) × Mem poll sample_polls × IsReady sample_int poll (codes "::1") (pos 9901)
wait_for_admin-IsReady_example =
    wait_for_admin-IsReady sample_int sample_polls (codes "::1") (pos 9901) sample_ready

all_running : all (λ p. p.running) sample_polls ≡ true
unfolding all
all_running = refl

some_answer : any (answers sample_int) sample_polls ≡ true
unfolding any poll_address answer_at parse_address rsplit_once strip drop_while is_space list_beq
some_answer = refl

-- A listener as Envoy's admin API lists it.
abbrev sample_listener : Str → Str → Json
sample_listener name port = object (
    field (codes "name") (text name) (
      field (codes "local_address")
        (object (
          field (codes "socket_address")
            (object (
              field (codes "address") (text (codes "127.0.0.1"))
                (field (codes "port_value") (number port) end)))
            end))
        end))

abbrev sample_body : Json
sample_body = object (
    field (codes "listener_statuses")
      (array (
        cons (sample_listener (codes "other") (codes "1"))
          (cons (sample_listener (codes "lab") (codes "10000")) nil)))
      end)

discover_listener_port_lem_example :
    (discover_listener_port (codes "lab") 200 sample_body ≡ some (number (codes "10000")))
    ↔ Lists (codes "lab") (number (codes "10000")) 200 sample_body
discover_listener_port_lem_example =
    discover_listener_port_lem (codes "lab") (number (codes "10000")) 200 sample_body

port_found : discover_listener_port (codes "lab") 200 sample_body ≡ some (number (codes "10000"))
unfolding discover_listener_port find_listener get list_beq
port_found = refl

abbrev sample_clock : ℕ → ℕ
sample_clock i = 50_000_000 * i

sample_clock-IsClock : IsClock startup_pause sample_clock
sample_clock-IsClock = record { starts = omega arith; sleeps = λ i. omega arith }

-- The address file is written before the second round.
abbrev started_poll : ℕ → Poll
started_poll zero = record { running = true; address_file = none; ready = λ h p. none }
started_poll (suc i) = record {
  running = true;
  address_file = some (codes "[::1]:9901\n");
  ready = λ h p. some 200;
}

always_running : (i : ℕ) → (started_poll i).running ≡ true
always_running zero = refl
always_running (suc i) = refl

second_answers : answers sample_int (started_poll 1) ≡ true
unfolding poll_address answer_at parse_address rsplit_once strip drop_while is_space list_beq
second_answers = refl

await_admin_finds_example :
    (host : Str) × (port : ℤ) × (lab_await_admin sample_int sample_clock started_poll
      ≡ some (admin_ready host port))
await_admin_finds_example =
    await_admin_finds sample_int lab_startup_timeout 1200 sample_clock started_poll 1 (omega arith)
      sample_clock-IsClock always_running (omega arith) second_answers
