-- ===== src/Prelude/Deadline.antt =====
-- The loops `deadline = time.monotonic() + timeout; while time.monotonic() < deadline: ...;
-- time.sleep(pause)` of the tools, by the clock. Times are nanoseconds.
use Prim.Native.Nat.{ℕ, zero, suc, ◌+◌, ◌-◌, ◌*◌, ◌≤◌, ◌<◌}
use mathlib.Core.Path.{◌≡◌, refl, subst}
use mathlib.Core.Logic.{inl, inr}
use mathlib.Core.Bool.{Bool, true}
use mathlib.Core.Option.{Option, none, some}
use mathlib.Core.List.{List, [], ◌∷◌}
use native.Mathlib.Decide.{dec_lt, ℕ_discrete}
use native.Mathlib.Omega.{arith}
use envoy_modsecurity.Prelude.Tests.{if◌then◌else◌, ltb, Bool-cases}
use envoy_modsecurity.Prelude.Lists.{any, all}

-- The clock is read at 0 for the deadline and at i + 1 before round i; between the rounds the tool
-- sleeps. `time.monotonic` never goes back, and `time.sleep` takes at least its time.
pub record IsClock (pause : ℕ) (clock : ℕ → ℕ) : Type 0 where
  pub starts : clock 0 ≤ clock 1
  pub sleeps : (i : ℕ) → clock (suc i) + pause ≤ clock (suc (suc i))

module _ {ℓ κ} {P : Type ℓ} {R : Type κ} (body : P → Option R) (late : R) where
  -- The loop from round i. A round ends it by returning or raising, which is `some`, or goes on to
  -- the sleep. `none` means that the fuel ran out.
  unfoldable pub until_deadline : (clock : ℕ → ℕ) (poll : ℕ → P) (deadline fuel i : ℕ) → Option R
  until_deadline clock poll deadline zero i = none
  until_deadline clock poll deadline (suc fuel) i =
      let rest = until_deadline clock poll deadline fuel (suc i) in
      if ltb (clock (suc i)) deadline
      then elim (body (poll i)) [ some r ↦ some r | none ↦ rest ]
      else some late

  -- The same over the rounds that begin before the deadline.
  unfoldable pub over_rounds : List P → R
  over_rounds [] = late
  over_rounds (p ∷ ps) = let rest = over_rounds ps in elim (body p) [ some r ↦ r | none ↦ rest ]

-- What n rounds from round i on find.
unfoldable pub polls_from {ℓ} : {P : Type ℓ} → (ℕ → P) → (n i : ℕ) → List P
polls_from poll zero i = []
polls_from poll (suc n) i = poll i ∷ polls_from poll n (suc i)

-- Of the rounds from i on, those that begin before the deadline are the rounds below m.
pub record Begun (clock : ℕ → ℕ) (deadline i m : ℕ) : Type 0 where
  pub from : i ≤ m
  pub before : (j : ℕ) → i ≤ j → j < m → clock (suc j) < deadline
  pub after : deadline ≤ clock (suc m)

Begun-here : (clock : ℕ → ℕ) (deadline i : ℕ) → deadline ≤ clock (suc i) → Begun clock deadline i i
Begun-here clock deadline i h = record {
  from = omega arith;
  before = λ j a b. absurd (omega arith);
  after = h;
}

Begun-step :
    (clock : ℕ → ℕ) (deadline i m : ℕ)
    → clock (suc i) < deadline
    → Begun clock deadline (suc i) m
    → Begun clock deadline i m
Begun-step clock deadline i m h b = record {
  from = omega arith;
  before = λ j from below. elim (ℕ_discrete i j) [
    | yes same ↦ subst (λ k. clock (suc k) < deadline) same h
    | no other ↦ b.before j (omega arith) below
  ];
  after = b.after;
}

module _ {ℓ κ} {P : Type ℓ} {R : Type κ} (body : P → Option R) (late : R) {pause : ℕ}
    {clock : ℕ → ℕ} (is_clock : IsClock pause clock) (poll : ℕ → P) (deadline : ℕ) where
  -- The loop from round i on ends with what the rounds below `m` give.
  pub record Ends (f i : ℕ) : Type κ where
    pub n : ℕ
    pub m : ℕ
    pub count : i + n ≡ m
    pub at_most : n ≤ f
    pub begun : Begun clock deadline i m
    pub gives :
        until_deadline body late clock poll deadline (suc f) i
        ≡ some (over_rounds body late (polls_from poll n i))

  Ends-zero : (f i : ℕ) → deadline ≤ clock (suc i) → Ends f i
  unfolding until_deadline over_rounds polls_from
  Ends-zero f i h = record {
    n = 0;
    m = i;
    count = omega arith;
    at_most = omega arith;
    begun = Begun-here clock deadline i h;
    gives = ground arith;
  }

  Ends-suc : (f i : ℕ) → clock (suc i) < deadline → Ends f (suc i) → Ends (suc f) i
  unfolding until_deadline over_rounds polls_from
  Ends-suc f i h later = record {
    n = suc later.n;
    m = later.m;
    count = omega (arith, later.count);
    at_most = omega (arith, later.at_most);
    begun = Begun-step clock deadline i later.m h later.begun;
    gives = ground (arith, later.gives);
  }

  -- Fuel for the time that is left is enough: the loop ends with what the rounds give that begin
  -- before the deadline.
  pub until_deadline-Ends : (f i : ℕ) → deadline ≤ clock (suc i) + pause * f → Ends f i
  until_deadline-Ends zero i h = Ends-zero zero i (grind arith)
  until_deadline-Ends (suc f) i h = elim (Bool-cases (ltb (clock (suc i)) deadline)) [
    | inl early ↦
        Ends-suc f i (ground arith)
          (until_deadline-Ends f (suc i) (grind (arith, is_clock.sleeps i)))
    | inr over ↦ Ends-zero (suc f) i (ground arith)
  ]

module _ {ℓ κ} {P : Type ℓ} {R : Type κ} (body : P → Option R) (late : R) {pause : ℕ}
    {clock : ℕ → ℕ} (is_clock : IsClock pause clock) (poll : ℕ → P) (timeout rounds : ℕ)
    (fuel : timeout ≤ pause * rounds) where
  -- The whole call, whose first reading of the clock sets the deadline.
  pub until_deadline_ends :
      (n : ℕ) × (n ≤ rounds)
      × Begun clock (clock 0 + timeout) 0 n
      × (until_deadline body late clock poll (clock 0 + timeout) (suc rounds) 0
          ≡ some (over_rounds body late (polls_from poll n 0)))
  until_deadline_ends =
      let e =
        until_deadline-Ends body late is_clock poll (clock 0 + timeout) rounds 0
          (omega (arith, is_clock.starts)) in
      let same : e.m ≡ e.n = omega (arith, e.count) in
      (e.n, e.at_most, subst (Begun clock (clock 0 + timeout) 0) same e.begun, e.gives)

pub clock_mono :
    {pause : ℕ} {clock : ℕ → ℕ} (is_clock : IsClock pause clock) (i k : ℕ)
    → clock (suc i) ≤ clock (suc (i + k))
clock_mono {pause} {clock} is_clock i zero =
    let same : i ≡ i + 0 = omega arith in
    subst (λ j. clock (suc i) ≤ clock (suc j)) same (omega arith)
clock_mono {pause} {clock} is_clock i (suc k) =
    let same : suc (i + k) ≡ i + suc k = omega arith in
    subst (λ j. clock (suc i) ≤ clock (suc j)) same
      (omega (arith, clock_mono is_clock i k, is_clock.sleeps (i + k)))

-- A round that begins before the deadline is one of those that do.
pub Begun-mem :
    {pause : ℕ} {clock : ℕ → ℕ} (is_clock : IsClock pause clock) (deadline i m j : ℕ)
    → Begun clock deadline i m
    → clock (suc j) < deadline
    → j < m
Begun-mem {pause} {clock} is_clock deadline i m j b h = elim (dec_lt j m) [
  | yes below ↦ below
  | no above ↦
      let later : clock (suc m) ≤ clock (suc j) =
        subst (λ k. clock (suc m) ≤ clock (suc k)) (omega arith) (clock_mono is_clock m (j - m)) in
      absurd (omega (arith, b.after))
]

module _ {ℓ} {P : Type ℓ} (p : P → Bool) (poll : ℕ → P) where
  pub all-polls_from :
      (n i : ℕ) → ((j : ℕ) → p (poll j) ≡ true) → all p (polls_from poll n i) ≡ true
  unfolding all polls_from
  all-polls_from zero i h = refl
  all-polls_from (suc n) i h = ground (arith, h i, all-polls_from n (suc i) h)

  pub any-polls_from :
      (n i j : ℕ) → i ≤ j → j < i + n → p (poll j) ≡ true → any p (polls_from poll n i) ≡ true
  unfolding any polls_from
  any-polls_from zero i j a b h = absurd (omega arith)
  any-polls_from (suc n) i j a b h = elim (ℕ_discrete j i) [
    | yes same ↦ ground (arith, subst (λ k. p (poll k) ≡ true) same h)
    | no other ↦ ground (arith, any-polls_from n (suc i) j (omega arith) (omega arith) h)
  ]
