-- ===== src/Prelude/Steps.antt =====
-- Statements that may raise, in their order, each with its effect on a state.
use mathlib.Core.Path.{◌≡◌, refl}
use mathlib.Core.Bool.{Bool, true, false, not}
use mathlib.Core.List.{List, [], ◌∷◌}
use native.Mathlib.Omega.{arith}
use envoy_modsecurity.Prelude.Tests.{if◌then◌else◌}
use envoy_modsecurity.Prelude.Lists.{all}

pub record Step {ℓ κ} (A : Type ℓ) (S : Type κ) : Type (ℓ ⊔ κ) where
  pub action : A
  pub effect : S → S

module _ {ℓ κ} {A : Type ℓ} {S : Type κ} (fails : A → Bool) where
  -- What happens by itself before a statement is `note`. A statement that raises ends the run, with
  -- no effect.
  unfoldable pub run_steps : (note : A → S → S) → List (Step A S) → S → Bool × S
  run_steps note [] s = (true, s)
  run_steps note (step ∷ steps) s =
      let s' = note step.action s in
      let rest = run_steps note steps (step.effect s') in
      if fails step.action then (false, s') else rest

  -- No statement of the list raises.
  abbrev pub none_raises : List (Step A S) → Bool
  none_raises steps = all (λ step. not (fails step.action)) steps

  -- The state after statements of which none raises.
  abbrev pub after_all : List (Step A S) → S → S
  after_all [] s = s
  after_all (step ∷ steps) s = after_all steps (step.effect s)

  pub run_steps-none_raises :
      (note : A → S → S) (steps : List (Step A S)) (s : S)
      → (run_steps note steps s).0 ≡ none_raises steps
  unfolding run_steps all
  run_steps-none_raises note [] s = refl
  run_steps-none_raises note (step ∷ steps) s =
      ground (arith, run_steps-none_raises note steps (step.effect (note step.action s)))

  pub run_steps-after_all :
      (steps : List (Step A S)) (s : S)
      → none_raises steps ≡ true
      → (run_steps (λ a r. r) steps s).1 ≡ after_all steps s
  unfolding run_steps all
  run_steps-after_all [] s h = refl
  run_steps-after_all (step ∷ steps) s h = ground (arith, run_steps-after_all steps (step.effect s))
