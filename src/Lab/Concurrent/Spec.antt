-- ===== src/Lab/Concurrent/Spec.antt =====
-- What overlapping calls of `LabRuntime.execute_request` (tools/owasp-crs-lab.py) promise, with no
-- request id and no common log: each call has entries of its own, and can return only these.
use envoy_modsecurity.Prelude.{
  ℕ, ◌≡◌, subst, Bool, true, false, List, [], ◌∷◌, ◌++◌, none, some, Mem, ◌==◌, nat_eq, arith,
  Bool-cases, inl, inr,
}
use mathlib.Core.List.{mem-append}
use mathlib.Core.Logic.Or
use envoy_modsecurity.Prelude.Dicts.{Dict}
use envoy_modsecurity.Prelude.Text.{Str}
use envoy_modsecurity.Prelude.Json.{Json}
use envoy_modsecurity.Lab.Errors.{Exception}
use envoy_modsecurity.Lab.Request.{Request}
use envoy_modsecurity.Lab.Execute.{Reply}
use envoy_modsecurity.Lab.Concurrent.{Phase, idle, sending, waiting, returned, raised, set_at}

pub record Isolated : Type 0 where
  pub phase : ℕ → Phase
  pub entries : ℕ → List (Dict Str Json)

abbrev pub goes_to : ℕ → Phase → Isolated → Isolated
goes_to i p a = record a { phase = set_at i p a.phase }

abbrev pub nothing_yet : Isolated
nothing_yet = record { phase = λ i. idle; entries = λ i. [] }

-- The call has not ended.
abbrev pub is_open : Phase → Bool
is_open (returned reply entry) = false
is_open (raised e) = false
is_open _ = true

pub data Act : Isolated → Isolated → Type 0 where
  begins : (a : Isolated) (i : ℕ) (q : Request) → a.phase i ≡ idle → Act a (goes_to i (sending q) a)
  answers :
      (a : Isolated) (i : ℕ) (q : Request) (reply : Reply)
      → a.phase i ≡ sending q
      → Act a (goes_to i (waiting q reply) a)
  fails :
      (a : Isolated) (i : ℕ) (e : Exception)
      → is_open (a.phase i) ≡ true
      → Act a (goes_to i (raised e) a)
  logs :
      (a : Isolated) (i : ℕ) (entry : Dict Str Json)
      → Act a (record a { entries = set_at i (a.entries i ++ entry ∷ []) a.entries })
  finds :
      (a : Isolated) (i : ℕ) (q : Request) (reply : Reply) (entry : Dict Str Json)
      → a.phase i ≡ waiting q reply
      → Mem entry (a.entries i)
      → Act a (goes_to i (returned reply (some entry)) a)
  expires :
      (a : Isolated) (i : ℕ) (q : Request) (reply : Reply)
      → a.phase i ≡ waiting q reply
      → Act a (goes_to i (returned reply none) a)

pub data Runs (a : Isolated) : Isolated → Type 0 where
  not_started : Runs a a
  act : {b c : Isolated} → Runs a b → Act b c → Runs a c

-- A call that has returned an entry has returned one of its own.
abbrev pub OwnsReturned : Isolated → Type 0
OwnsReturned a =
    (i : ℕ) (reply : Reply) (entry : Dict Str Json)
    → a.phase i ≡ returned reply (some entry)
    → Mem entry (a.entries i)

moved :
    (a : Isolated) (i : ℕ) (p : Phase)
    → OwnsReturned a
    → ((reply : Reply) (entry : Dict Str Json)
        → p ≡ returned reply (some entry)
        → Mem entry (a.entries i))
    → OwnsReturned (goes_to i p a)
moved a i p h new k reply entry e = elim (Bool-cases (k == i)) [
  | inl same ↦
      let here : i ≡ k = ground arith in
      subst (λ j. Mem entry (a.entries j)) here (new reply entry (ground arith))
  | inr other ↦ h k reply entry (ground arith)
]

kept :
    (a : Isolated) (i k : ℕ) (entry more : Dict Str Json)
    → Mem entry (a.entries k)
    → Mem entry (set_at i (a.entries i ++ more ∷ []) a.entries k)
kept a i k entry more m = elim (Bool-cases (k == i)) [
  | inl same ↦
      let here : k ≡ i = ground arith in
      rw same (mem-append.1 (Or.inl (subst (λ j. Mem entry (a.entries j)) here m)))
  | inr other ↦ rw other m
]

pub Act-OwnsReturned : {a b : Isolated} → Act a b → OwnsReturned a → OwnsReturned b
Act-OwnsReturned (begins a i q at) h = moved a i (sending q) h (λ r e c. absurd (ground arith))
Act-OwnsReturned (answers a i q reply at) h =
    moved a i (waiting q reply) h (λ r e c. absurd (ground arith))
Act-OwnsReturned (fails a i x at) h = moved a i (raised x) h (λ r e c. absurd (ground arith))
Act-OwnsReturned (logs a i more) h = λ k reply entry e. kept a i k entry more (h k reply entry e)
Act-OwnsReturned (finds a i q reply entry at m) h =
    moved a i (returned reply (some entry)) h
      (λ r e c. let same : entry ≡ e = ground arith in subst (λ x. Mem x (a.entries i)) same m)
Act-OwnsReturned (expires a i q reply at) h =
    moved a i (returned reply none) h (λ r e c. absurd (ground arith))

pub Runs-OwnsReturned : {a b : Isolated} → Runs a b → OwnsReturned a → OwnsReturned b
Runs-OwnsReturned not_started h = h
Runs-OwnsReturned (act r s) h = Act-OwnsReturned s (Runs-OwnsReturned r h)
