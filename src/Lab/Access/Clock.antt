-- ===== src/Lab/Access/Clock.antt =====
-- `LabRuntime._wait_for_access_entry` of tools/owasp-crs-lab.py by the clock: the loop ends in time,
-- with what the rounds give that begin before the deadline.
use envoy_modsecurity.Prelude.{
  ℕ, suc, ◌+◌, ◌≤◌, ◌<◌, ◌≡◌, refl, ◌∙◌, ap, true, List, [], ◌∷◌, Option, none, some, arith,
  if◌then◌else◌, Option-cases, inl, inr, nat_eq, list_eq,
}
use mathlib.Core.List.{reverse}
use envoy_modsecurity.Prelude.Lists.{any}
use envoy_modsecurity.Prelude.Dicts.{Dict, get}
use envoy_modsecurity.Prelude.Deadline.{
  IsClock, Begun, until_deadline, over_rounds, polls_from, until_deadline_ends, Begun-mem,
  all-polls_from, any-polls_from,
}
use envoy_modsecurity.Prelude.Text.{Str, codes}
use envoy_modsecurity.Prelude.Json.{Json, text}
use envoy_modsecurity.Lab.Errors.{Result, ok, err, runtime_error}
use envoy_modsecurity.Lab.Access.{
  Poll, find_entry, is_entry, wait_for_access_entry, wait_for_access_entry_finds,
  wait_for_access_entry-id,
}

-- ACCESS_LOG_TIMEOUT_SECONDS and the sleep between two rounds, in nanoseconds.
abbrev pub access_log_timeout : ℕ
access_log_timeout = 2_000_000_000

abbrev pub access_log_pause : ℕ
access_log_pause = 20_000_000

-- One round of the loop: an exception, the entry, or on to the sleep.
unfoldable pub access_round : Str → Poll → Option (Result (Option (Dict Str Json)))
access_round request_id poll =
    if poll.running
    then elim (find_entry request_id (reverse poll.lines)) [
      | some entry ↦ some (ok (some entry))
      | none ↦ none
    ]
    else some (err runtime_error)

-- The call; `none` means that 101 tests of the clock were not enough.
unfoldable pub await_access_entry :
    (clock : ℕ → ℕ) (poll : ℕ → Poll) → Str → Option (Result (Option (Dict Str Json)))
unfolding until_deadline access_round
await_access_entry clock poll request_id =
    until_deadline (access_round request_id) (ok none) clock poll (clock 0 + access_log_timeout) 101
      0

over_rounds-wait_for_access_entry :
    (request_id : Str) (polls : List Poll)
    → over_rounds (access_round request_id) (ok none) polls ≡ wait_for_access_entry request_id polls
unfolding over_rounds access_round wait_for_access_entry
over_rounds-wait_for_access_entry request_id [] = refl
over_rounds-wait_for_access_entry request_id (poll ∷ polls) =
    elim (Option-cases (find_entry request_id (reverse poll.lines))) [
      | inl nothing ↦ ground (arith, over_rounds-wait_for_access_entry request_id polls)
      | inr (e, found) ↦ ground (arith, over_rounds-wait_for_access_entry request_id polls)
    ]

-- By a clock that never goes back, with sleeps of at least 20 ms, the wait for an access-log
-- entry ends within 2 seconds of rounds, after at most 100 of them, and gives what the rounds
-- give that begin before the deadline.
pub await_access_entry_ends :
    (clock : ℕ → ℕ) (poll : ℕ → Poll) (request_id : Str)
    → IsClock access_log_pause clock
    → (n : ℕ) × (n ≤ 100)
      × Begun clock (clock 0 + access_log_timeout) 0 n
      × (await_access_entry clock poll request_id
          ≡ some (wait_for_access_entry request_id (polls_from poll n 0)))
unfolding await_access_entry
await_access_entry_ends clock poll request_id is_clock =
    let (n, few, begun, ends) =
      until_deadline_ends (access_round request_id) (ok none) is_clock poll access_log_timeout 100
        (omega arith) in
    (
      n,
      few,
      begun,
      ends ∙ ap some (over_rounds-wait_for_access_entry request_id (polls_from poll n 0)),
    )

-- If Envoy runs throughout and an entry of the request is in the log at a round that begins
-- before the deadline, the wait by the clock returns an entry, and it carries the request id.
pub await_access_entry_finds :
    (clock : ℕ → ℕ) (poll : ℕ → Poll) (request_id : Str) (j : ℕ)
    → IsClock access_log_pause clock
    → ((i : ℕ) → (poll i).running ≡ true)
    → clock (suc j) < clock 0 + access_log_timeout
    → any (is_entry request_id) (poll j).lines ≡ true
    → (e : Dict Str Json) × (get (codes "request_id") e ≡ some (text request_id))
      × (await_access_entry clock poll request_id ≡ some (ok (some e)))
await_access_entry_finds clock poll request_id j is_clock running early logged =
    let (n, few, begun, ends) = await_access_entry_ends clock poll request_id is_clock in
    let below = Begun-mem is_clock (clock 0 + access_log_timeout) 0 n j begun early in
    let (e, found) =
      wait_for_access_entry_finds request_id (polls_from poll n 0)
        (all-polls_from (λ p. p.running) poll n 0 running)
        (any-polls_from (λ p. any (is_entry request_id) p.lines) poll n 0 j (omega arith)
          (omega arith) logged) in
    (e, wait_for_access_entry-id request_id (polls_from poll n 0) found, ends ∙ ap some found)
