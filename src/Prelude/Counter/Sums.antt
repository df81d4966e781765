-- ===== src/Prelude/Counter/Sums.antt =====
-- The counts of a `Counter` add up.
use Prim.Native.Nat.{ℕ, suc, ◌+◌}
use mathlib.Core.Path.{◌≡◌, refl}
use mathlib.Core.Logic.{inl, inr}
use mathlib.Core.Bool.{true, false}
use mathlib.Core.List.{List, [], ◌∷◌}
use native.Mathlib.Omega.{arith}
use envoy_modsecurity.Prelude.Tests.{Bool-cases}
use envoy_modsecurity.Prelude.Equality.{Eq, pair_eq, nat_eq, beq_refl}
use envoy_modsecurity.Prelude.Lists.{length, sum_of}
use envoy_modsecurity.Prelude.Dicts.{
  Dict, has_key, set_item, set_default, update_item, has_key-set_default,
}
use envoy_modsecurity.Prelude.Sorting.{sum_of-sorted}
use envoy_modsecurity.Prelude.Counter.{more_common, counter_from, counter, most_common}

module _ {ℓ} {K : Type ℓ} ⦃e : Eq K⦄ where
  sum-update_item :
      (k : K) (d : Dict K ℕ)
      → has_key k d ≡ true
      → sum_of (λ p. p.1) (update_item k suc d) ≡ suc (sum_of (λ p. p.1) d)
  unfolding update_item sum_of has_key
  sum-update_item k [] h = cc
  sum-update_item k ((j, c) ∷ d) h = ground (arith, sum-update_item k d)

  sum-set_item :
      (k : K) (d : Dict K ℕ)
      → has_key k d ≡ false
      → sum_of (λ p. p.1) (set_item k 0 d) ≡ sum_of (λ p. p.1) d
  unfolding set_item sum_of has_key
  sum-set_item k [] h = refl
  sum-set_item k ((j, c) ∷ d) h = ground (arith, sum-set_item k d)

  sum-set_default :
      (k : K) (d : Dict K ℕ) → sum_of (λ p. p.1) (set_default k 0 d) ≡ sum_of (λ p. p.1) d
  unfolding set_default
  sum-set_default k d = elim (Bool-cases (has_key k d)) [
    | inl old ↦ rw old refl
    | inr new ↦ rw new (sum-set_item k d new)
  ]

  sum-counter_from :
      (ks : List K) (d : Dict K ℕ)
      → sum_of (λ p. p.1) (counter_from ks d) ≡ length ks + sum_of (λ p. p.1) d
  unfolding counter_from
  sum-counter_from [] d = omega arith
  sum-counter_from (k ∷ ks) d =
      let present : has_key k (set_default k 0 d) ≡ true =
        ground (arith, has_key-set_default k k 0 d, beq_refl k) in
      omega (
        arith,
        sum-counter_from ks (update_item k suc (set_default k 0 d)),
        sum-update_item k (set_default k 0 d) present,
        sum-set_default k d,
      )

  -- The counts add up to the number of keys that were counted.
  pub sum-most_common : (ks : List K) → sum_of (λ p. p.1) (most_common ks) ≡ length ks
  unfolding most_common counter sum_of
  sum-most_common ks = omega (
    arith,
    sum_of-sorted more_common (λ (p : K × ℕ). p.1) (counter_from ks []),
    sum-counter_from ks [],
  )
