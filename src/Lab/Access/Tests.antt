-- ===== src/Lab/Access/Tests.antt =====
-- The wait for an access-log entry by the clock, on small inputs.
use envoy_modsecurity.Prelude.{
  ℕ, zero, suc, ◌+◌, ◌*◌, ◌≤◌, ◌≡◌, refl, true, [], ◌∷◌, none, some, arith, nat_eq, list_eq,
}
use envoy_modsecurity.Prelude.Lists.{any}
use envoy_modsecurity.Prelude.Equality.{list_beq}
use envoy_modsecurity.Prelude.Dicts.{Dict, get}
use envoy_modsecurity.Prelude.Deadline.{IsClock, Begun, polls_from}
use envoy_modsecurity.Prelude.Text.{Str, codes}
use envoy_modsecurity.Prelude.Json.{Json, text, object, field, end}
use envoy_modsecurity.Lab.Errors.{ok}
use envoy_modsecurity.Lab.Access.{Poll, is_entry, find_entry, wait_for_access_entry}
use envoy_modsecurity.Lab.Access.Clock.{
  access_log_timeout, access_log_pause, await_access_entry, await_access_entry_ends,
  await_access_entry_finds,
}

-- Every round takes one and a half pauses.
abbrev sample_clock : ℕ → ℕ
sample_clock i = 5 + 30_000_000 * i

sample_clock-IsClock : IsClock access_log_pause sample_clock
sample_clock-IsClock = record { starts = omega arith; sleeps = λ i. omega arith }

abbrev other_entry : Json
other_entry = object (field (codes "request_id") (text (codes "r0")) end)

-- The entry is written between the first and the second round.
abbrev sample_poll : ℕ → Poll
sample_poll zero = record { running = true; lines = some other_entry ∷ [] }
sample_poll (suc i) = record {
  running = true;
  lines =
      some other_entry
      ∷ some (object (field (codes "request_id") (text (codes "r1")) end))
      ∷ none
      ∷ [];
}

always_running : (i : ℕ) → (sample_poll i).running ≡ true
always_running zero = refl
always_running (suc i) = refl

logged : any (is_entry (codes "r1")) (sample_poll 1).lines ≡ true
unfolding any get list_beq
logged = refl

await_access_entry_ends_example :
    (n : ℕ) × (n ≤ 100)
    × Begun sample_clock (sample_clock 0 + access_log_timeout) 0 n
    × (await_access_entry sample_clock sample_poll (codes "r1")
        ≡ some (wait_for_access_entry (codes "r1") (polls_from sample_poll n 0)))
await_access_entry_ends_example =
    await_access_entry_ends sample_clock sample_poll (codes "r1") sample_clock-IsClock

await_access_entry_finds_example :
    (e : Dict Str Json) × (get (codes "request_id") e ≡ some (text (codes "r1")))
    × (await_access_entry sample_clock sample_poll (codes "r1") ≡ some (ok (some e)))
await_access_entry_finds_example =
    await_access_entry_finds sample_clock sample_poll (codes "r1") 1 sample_clock-IsClock
      always_running (omega arith) logged

-- Nothing is logged: the wait ends after 67 rounds.
quiet_wait : await_access_entry sample_clock (λ i. sample_poll 0) (codes "r1") ≡ some (ok none)
unfolding await_access_entry find_entry get list_beq
quiet_wait = refl
