-- ===== src/Admin/Ready.antt =====
-- What the wait for Envoy's admin address has found.
use envoy_modsecurity.Prelude.{
  ℕ, ◌≡◌, refl, ◌∙◌, sym, ap, subst, Bool, true, false, List, [], ◌∷◌, ◌++◌, Option, none, some,
  Mem, arith, if◌then◌else◌, ◌==◌, nat_eq, Bool-cases, Option-cases, inl, inr,
}
use mathlib.Core.List.{mem-cons, append_assoc}
use mathlib.Core.Logic.Or
use envoy_modsecurity.Prelude.Lists.{contains, any, all}
use envoy_modsecurity.Prelude.Text.{Str, is_space}
use envoy_modsecurity.Prelude.Split.{strip, rsplit_once-append, strip_none, strip_between}
use envoy_modsecurity.Prelude.Int.{ℤ}
use envoy_modsecurity.Admin.{
  Poll, admin_ready, is_bracket, parse_address, answer_at, poll_address, wait_for_admin,
}

module _ (to_int : Str → Option ℤ) where
  -- In the round, Envoy ran, its address file named the address, and `/ready` there had status 200.
  pub record IsReady (poll : Poll) (host : Str) (port : ℤ) : Type 0 where
    pub running : poll.running ≡ true
    pub file : Str
    pub written : poll.address_file ≡ some file
    pub parsed : parse_address to_int (strip is_space file) ≡ some (host, port)
    pub answered : poll.ready host port ≡ some 200

  from_file :
      (poll : Poll) (file : Str)
      → poll.address_file ≡ some file
      → poll_address to_int poll ≡ answer_at to_int poll file
  unfolding poll_address
  from_file poll file h = ground arith

  checked :
      (status : ℕ) (a b : Str × ℤ)
      → ◌≡◌ {A = Option (Str × ℤ)} (if status == 200 then some a else none) (some b)
      → (status ≡ 200) × (a ≡ b)
  checked status a b h = ground arith

  answered_inv :
      (poll : Poll) (file host : Str) (port : ℤ)
      → answer_at to_int poll file ≡ some (host, port)
      → (parse_address to_int (strip is_space file) ≡ some (host, port))
        × (poll.ready host port ≡ some 200)
  unfolding answer_at
  answered_inv poll file host port h =
      elim (Option-cases (parse_address to_int (strip is_space file))) [
        | inl unreadable ↦ absurd (ground arith)
        | inr ((host', port'), parsed) ↦ elim (Option-cases (poll.ready host' port')) [
          | inl refused ↦ absurd (ground arith)
          | inr (status, answered) ↦
              let (good, same) = checked status (host', port') (host, port) (ground arith) in
              subst
                (λ (a : Str × ℤ).
                  (parse_address to_int (strip is_space file) ≡ some a)
                  × (poll.ready a.0 a.1 ≡ some 200))
                same (parsed, answered ∙ ap some good)
        ]
      ]

  poll_address-IsReady :
      (poll : Poll) (host : Str) (port : ℤ)
      → poll.running ≡ true
      → poll_address to_int poll ≡ some (host, port)
      → IsReady poll host port
  unfolding poll_address
  poll_address-IsReady poll host port r h = elim (Option-cases poll.address_file) [
    | inl no_file ↦ absurd (ground arith)
    | inr (file, written) ↦
        let (parsed, answered) =
          answered_inv poll file host port (sym (from_file poll file written) ∙ h) in
        record { running = r; file = file; written = written; parsed = parsed; answered = answered }
  ]

  -- An admin address that is returned was found in a round in which Envoy ran, the address file
  -- held its text and `/ready` answered there with status 200.
  pub wait_for_admin-IsReady :
      (polls : List Poll) (host : Str) (port : ℤ)
      → wait_for_admin to_int polls ≡ admin_ready host port
      → (poll : Poll) × Mem poll polls × IsReady poll host port
  unfolding wait_for_admin
  wait_for_admin-IsReady [] host port h = cc
  wait_for_admin-IsReady (poll ∷ polls) host port h = elim (Bool-cases poll.running) [
    | inr gone ↦ absurd (ground arith)
    | inl running ↦ elim (Option-cases (poll_address to_int poll)) [
      | inl waits ↦
          let (p, m, ready) = wait_for_admin-IsReady polls host port (ground arith) in
          (p, mem-cons.1 (Or.inr m), ready)
      | inr ((h', p'), found) ↦ (
        poll,
        mem-cons.1 (Or.inl refl),
        poll_address-IsReady poll host port running (ground arith),
      )
    ]
  ]

  -- The round gives an address.
  abbrev pub answers : Poll → Bool
  answers poll = elim (poll_address to_int poll) [ none ↦ false | some address ↦ true ]

  -- If Envoy runs in all rounds before the deadline and some round gives an address, an address
  -- is returned.
  pub wait_for_admin_finds :
      (polls : List Poll)
      → all (λ p. p.running) polls ≡ true
      → any answers polls ≡ true
      → (host : Str) × (port : ℤ) × (wait_for_admin to_int polls ≡ admin_ready host port)
  unfolding wait_for_admin all any
  wait_for_admin_finds [] r h = cc
  wait_for_admin_finds (poll ∷ polls) r h = elim (Option-cases (poll_address to_int poll)) [
    | inr ((host, port), found) ↦ (host, port, ground arith)
    | inl waits ↦
        let (host, port, found) = wait_for_admin_finds polls (ground arith) (ground arith) in
        (host, port, ground arith)
  ]

parse_split :
    (to_int : Str → Option ℤ) (host port : Str) (n : ℤ)
    → to_int port ≡ some n
    → contains port b':' ≡ false
    → parse_address to_int (host ++ b':' ∷ port) ≡ some (strip is_bracket host, n)
unfolding parse_address
parse_split to_int host port n i c = ground (arith, rsplit_once-append b':' host port c)

-- The text of a host without brackets, a colon and a port without a colon is parsed as that host
-- and port, and so is the text with the host in square brackets; colons in the host do no harm.
pub parse_address-append :
    (to_int : Str → Option ℤ) (host port : Str) (n : ℤ)
    → to_int port ≡ some n
    → contains port b':' ≡ false
    → any is_bracket host ≡ false
    → (parse_address to_int (host ++ b':' ∷ port) ≡ some (host, n))
      × (parse_address to_int (b'[' ∷ host ++ b']' ∷ b':' ∷ port) ≡ some (host, n))
parse_address-append to_int host port n i c h = (
  parse_split to_int host port n i c ∙ ap (λ t. some (t, n)) (strip_none is_bracket host h),
  ap (λ t. parse_address to_int (b'[' ∷ t)) (sym (append_assoc host (b']' ∷ []) (b':' ∷ port)))
      ∙ parse_split to_int (b'[' ∷ host ++ b']' ∷ []) port n i c
      ∙ ap (λ t. some (t, n)) (strip_between is_bracket b'[' b']' host refl refl h),
)
