-- ===== src/Admin/Clock.antt =====
-- The wait for Envoy's admin address by the clock: `wait_for_envoy_admin` of
-- tools/crs-compatibility-report.py, `LabRuntime._wait_for_admin` of tools/owasp-crs-lab.py and
-- `wait_for_admin` of tools/qualification-benchmark.py, which differ in their timeouts.
use envoy_modsecurity.Prelude.{
  ℕ, suc, ◌+◌, ◌*◌, ◌≤◌, ◌<◌, ◌≡◌, refl, ◌∙◌, ap, true, List, [], ◌∷◌, Option, none, some, arith,
  if◌then◌else◌, Option-cases, inl, inr,
}
use envoy_modsecurity.Prelude.Deadline.{
  IsClock, Begun, until_deadline, over_rounds, polls_from, until_deadline_ends, Begun-mem,
  all-polls_from, any-polls_from,
}
use envoy_modsecurity.Prelude.Text.{Str}
use envoy_modsecurity.Prelude.Int.{ℤ}
use envoy_modsecurity.Admin.{
  Poll, Waited, admin_ready, exited, timed_out, poll_address, wait_for_admin,
}
use envoy_modsecurity.Admin.Ready.{answers, wait_for_admin_finds}

-- STARTUP_TIMEOUT_SECONDS of the report and of the benchmark, that of the lab, and the sleep between
-- two rounds, in nanoseconds.
abbrev pub startup_timeout : ℕ
startup_timeout = 30_000_000_000

abbrev pub lab_startup_timeout : ℕ
lab_startup_timeout = 60_000_000_000

abbrev pub startup_pause : ℕ
startup_pause = 50_000_000

module _ (to_int : Str → Option ℤ) where
  -- One round of the loop: an exception, the address, or on to the sleep.
  unfoldable pub admin_round : Poll → Option Waited
  admin_round poll =
      if poll.running
      then elim (poll_address to_int poll) [
        | some (host, port) ↦ some (admin_ready host port)
        | none ↦ none
      ]
      else some exited

  -- The call with its timeout; `none` means that the tests of the clock were not enough, which are
  -- one more than the sleeps that fit into the timeout.
  unfoldable pub await_admin :
      (timeout rounds : ℕ) (clock : ℕ → ℕ) (poll : ℕ → Poll) → Option Waited
  unfolding until_deadline admin_round
  await_admin timeout rounds clock poll =
      until_deadline admin_round timed_out clock poll (clock 0 + timeout) (suc rounds) 0

  abbrev pub report_await_admin : (clock : ℕ → ℕ) (poll : ℕ → Poll) → Option Waited
  report_await_admin = await_admin startup_timeout 600

  abbrev pub lab_await_admin : (clock : ℕ → ℕ) (poll : ℕ → Poll) → Option Waited
  lab_await_admin = await_admin lab_startup_timeout 1200

  over_rounds-wait_for_admin :
      (polls : List Poll) → over_rounds admin_round timed_out polls ≡ wait_for_admin to_int polls
  unfolding over_rounds admin_round wait_for_admin
  over_rounds-wait_for_admin [] = refl
  over_rounds-wait_for_admin (poll ∷ polls) = elim (Option-cases (poll_address to_int poll)) [
    | inl nothing ↦ ground (arith, over_rounds-wait_for_admin polls)
    | inr ((host, port), found) ↦ ground (arith, over_rounds-wait_for_admin polls)
  ]

  -- By a clock that never goes back, with sleeps of at least 50 ms, the wait for Envoy's admin
  -- address ends, after at most as many rounds as sleeps fit into the timeout, and gives what the
  -- rounds give that begin before the deadline.
  pub await_admin_ends :
      (timeout rounds : ℕ) (clock : ℕ → ℕ) (poll : ℕ → Poll)
      → timeout ≤ startup_pause * rounds
      → IsClock startup_pause clock
      → (n : ℕ) × (n ≤ rounds)
        × Begun clock (clock 0 + timeout) 0 n
        × (await_admin timeout rounds clock poll
            ≡ some (wait_for_admin to_int (polls_from poll n 0)))
  unfolding await_admin
  await_admin_ends timeout rounds clock poll fuel is_clock =
      let (n, few, begun, ends) =
        until_deadline_ends admin_round timed_out is_clock poll timeout rounds fuel in
      (n, few, begun, ends ∙ ap some (over_rounds-wait_for_admin (polls_from poll n 0)))

  -- If Envoy runs throughout and a round that begins before the deadline gives an address, the
  -- wait by the clock returns an address.
  pub await_admin_finds :
      (timeout rounds : ℕ) (clock : ℕ → ℕ) (poll : ℕ → Poll) (j : ℕ)
      → timeout ≤ startup_pause * rounds
      → IsClock startup_pause clock
      → ((i : ℕ) → (poll i).running ≡ true)
      → clock (suc j) < clock 0 + timeout
      → answers to_int (poll j) ≡ true
      → (host : Str) × (port : ℤ) × (await_admin timeout rounds clock poll
          ≡ some (admin_ready host port))
  await_admin_finds timeout rounds clock poll j fuel is_clock running early answered =
      let (n, few, begun, ends) = await_admin_ends timeout rounds clock poll fuel is_clock in
      let below = Begun-mem is_clock (clock 0 + timeout) 0 n j begun early in
      let (host, port, found) =
        wait_for_admin_finds to_int (polls_from poll n 0)
          (all-polls_from (λ p. p.running) poll n 0 running)
          (any-polls_from (answers to_int) poll n 0 j (omega arith) (omega arith) answered) in
      (host, port, ends ∙ ap some found)
