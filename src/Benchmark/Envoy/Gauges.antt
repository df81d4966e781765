-- ===== src/Benchmark/Envoy/Gauges.antt =====
-- What it means that the gauges have returned to zero (tools/qualification-benchmark.py).
use envoy_modsecurity.Prelude.{
  ℕ, ◌+◌, ◌≤◌, ◌≡◌, refl, ◌∙◌, sym, ap, subst, true, false, List, [], ◌∷◌, Option, none, some, Mem,
  arith, if◌then◌else◌, ◌==◌, nat_eq, list_eq, Bool-cases, inl, inr,
}
use mathlib.Core.List.{mem-cons}
use mathlib.Core.Bool.{false≢true}
use mathlib.Core.Logic.Or
use envoy_modsecurity.Prelude.Lists.{all, is_empty}
use envoy_modsecurity.Prelude.Dicts.{Dict, get, set_item, values, get-set_item}
use envoy_modsecurity.Prelude.Text.{Str, str_beq_iff}
use envoy_modsecurity.Prelude.Deadline.{
  IsClock, Begun, until_deadline_ends, over_rounds, polls_from,
}
use envoy_modsecurity.Admin.Clock.{startup_pause}
use envoy_modsecurity.Prelude.Int.{ℤ, pos, is_zero, is_zero_iff}
use envoy_modsecurity.Benchmark.Envoy.{
  StatsPoll, is_gauge, gauges_from, gauges, are_zero, zero_modsecurity_gauges, gauges_round,
  request_timeout, await_zero_gauges,
}

-- The last value that the statistics give the name.
unfoldable pub last_value : Str → List (Str × ℤ) → Option ℤ → Option ℤ
last_value name [] so_far = so_far
last_value name ((other, value) ∷ stats) so_far =
    last_value name stats (if name == other then some value else so_far)

different :
    (name other : Str) → is_gauge name ≡ true → is_gauge other ≡ false → (name == other) ≡ false
different name other h k = elim (Bool-cases (name == other)) [
  | inl same ↦ absurd (false≢true (sym k ∙ ap is_gauge (sym ((str_beq_iff name other).0 same)) ∙ h))
  | inr differs ↦ differs
]

get-gauges_from :
    (name : Str) (stats : List (Str × ℤ)) (d : Dict Str ℤ)
    → is_gauge name ≡ true
    → get name (gauges_from stats d) ≡ last_value name stats (get name d)
unfolding gauges_from last_value
get-gauges_from name [] d h = refl
get-gauges_from name ((other, value) ∷ stats) d h = elim (Bool-cases (is_gauge other)) [
  | inl gauge ↦ rw gauge (
      get-gauges_from name stats (set_item other value d) h
      ∙ ap (last_value name stats) (get-set_item other name value d))
  | inr skipped ↦
      let differs : (name == other) ≡ false = different name other h skipped in
      rw (skipped, differs) (get-gauges_from name stats d h)
]

all_zero-get :
    (d : Dict Str ℤ) (name : Str) {value : ℤ}
    → all is_zero (values d) ≡ true
    → get name d ≡ some value
    → is_zero value ≡ true
unfolding all get
all_zero-get [] name h e = cc
all_zero-get ((k, v) ∷ d) name h e = elim (Bool-cases (name == k)) [
  | inl same ↦ ground arith
  | inr other ↦ all_zero-get d name (ground arith) (ground arith)
]

are_zero_inv :
    (d : Dict Str ℤ) → are_zero d ≡ true → (is_empty d ≡ false) × (all is_zero (values d) ≡ true)
unfolding are_zero
are_zero_inv d h = ground arith

-- Gauges that are returned as zero are some, and were read in a round with status 200 whose
-- statistics give each gauge the last value 0.
pub zero_modsecurity_gauges_lem :
    (polls : List StatsPoll) {d : Dict Str ℤ}
    → zero_modsecurity_gauges polls ≡ some d
    → (poll : StatsPoll) × Mem poll polls
      × (poll.status ≡ 200)
      × (is_empty d ≡ false)
      × ((name : Str) (value : ℤ)
          → is_gauge name ≡ true
          → last_value name poll.stats none ≡ some value
          → value ≡ pos 0)
unfolding zero_modsecurity_gauges get
zero_modsecurity_gauges_lem [] h = cc
zero_modsecurity_gauges_lem (poll ∷ polls) {d} h = elim (Bool-cases (poll.status == 200)) [
  | inr refused ↦ absurd (ground arith)
  | inl good ↦ elim (Bool-cases (are_zero (gauges poll.stats))) [
    | inr not_yet ↦
        let (p, m, status, some_gauge, zero) =
          zero_modsecurity_gauges_lem polls {d = d} (ground arith) in
        (p, mem-cons.1 (Or.inr m), status, some_gauge, zero)
    | inl zeroed ↦
        let returned : gauges poll.stats ≡ d = ground arith in
        let (found, all_zero) = are_zero_inv (gauges poll.stats) zeroed in
        (
          poll,
          mem-cons.1 (Or.inl refl),
          ground arith,
          subst (λ g. is_empty g ≡ false) returned found,
          λ name value gauge last. (is_zero_iff value).0 (
              all_zero-get (gauges poll.stats) name all_zero
                (get-gauges_from name poll.stats [] gauge ∙ last)),
        )
  ]
]

over_rounds-zero_modsecurity_gauges :
    (polls : List StatsPoll) → over_rounds gauges_round none polls ≡ zero_modsecurity_gauges polls
unfolding over_rounds gauges_round zero_modsecurity_gauges
over_rounds-zero_modsecurity_gauges [] = refl
over_rounds-zero_modsecurity_gauges (poll ∷ polls) =
    ground (arith, over_rounds-zero_modsecurity_gauges polls)

-- The wait ends at the latest after 200 rounds, with what the rounds give that begin before the
-- deadline.
pub await_zero_gauges_ends :
    (clock : ℕ → ℕ) (poll : ℕ → StatsPoll)
    → IsClock startup_pause clock
    → (n : ℕ) × (n ≤ 200)
      × Begun clock (clock 0 + request_timeout) 0 n
      × (await_zero_gauges clock poll ≡ some (zero_modsecurity_gauges (polls_from poll n 0)))
unfolding await_zero_gauges
await_zero_gauges_ends clock poll is_clock =
    let (n, few, begun, ends) =
      until_deadline_ends gauges_round none is_clock poll request_timeout 200 (omega arith) in
    (n, few, begun, ends ∙ ap some (over_rounds-zero_modsecurity_gauges (polls_from poll n 0)))
