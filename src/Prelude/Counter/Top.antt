-- ===== src/Prelude/Counter/Top.antt =====
-- What stands among the first of `most_common`.
use Prim.Native.Nat.{ℕ, zero, suc}
use mathlib.Core.Path.{◌≡◌, refl}
use mathlib.Core.Logic.{◌⊎◌, inl, inr}
use mathlib.Core.Bool.{Bool, true}
use mathlib.Core.List.{List, [], ◌∷◌}
use native.Mathlib.Omega.{arith}
use envoy_modsecurity.Prelude.Tests.{Bool-cases, leb}
use envoy_modsecurity.Prelude.Equality.{Eq, ◌==◌, pair_eq, nat_eq}
use envoy_modsecurity.Prelude.Lists.{
  length, take, all, contains, count, all_of_all, mem_of_contains,
}
use envoy_modsecurity.Prelude.Dicts.{}
use envoy_modsecurity.Prelude.Sorting.{TotalOrder, IsSorted, sorted-IsSorted}
use envoy_modsecurity.Prelude.Counter.{more_common, counter, most_common, contains-most_common}

more_common-TotalOrder {ℓ} : {K : Type ℓ} → TotalOrder (more_common {K = K})
more_common-TotalOrder = record { total = λ p q h. ground arith; trans = λ p q r h k. ground arith }

-- A prefix of a list in order has an element, or is full and in order before it.
in_prefix {ℓ} :
    {A : Type ℓ} ⦃e : Eq A⦄ (le : A → A → Bool) (n : ℕ) (xs : List A) (a : A)
    → IsSorted le xs
    → contains xs a ≡ true
    → (contains (take n xs) a ≡ true)
      ⊎ ((length (take n xs) ≡ n) × (all (λ x. le x a) (take n xs) ≡ true))
unfolding contains all
in_prefix le n [] a s m = cc
in_prefix le zero (x ∷ xs) a s m = inr (refl, refl)
in_prefix ⦃e⦄ le (suc n) (x ∷ xs) a (first, s) m = elim (Bool-cases (a == x)) [
  | inl here ↦ inl (ground arith)
  | inr other ↦
      let later : contains xs a ≡ true = ground arith in
      let before = all_of_all (le x) xs first a (mem_of_contains xs a later) in
      elim (in_prefix le n xs a s later) [
        | inl inside ↦ inl (ground arith)
        | inr (full, above) ↦ inr (ground arith, ground arith)
      ]
]

-- Among the n most common, a key that occurs stands with its count, or there are n with at least
-- that count.
pub take-most_common {ℓ} :
    {K : Type ℓ} ⦃e : Eq K⦄ (n : ℕ) (ks : List K) (k : K)
    → contains ks k ≡ true
    → (contains (take n (most_common ks)) (k, count k ks) ≡ true)
      ⊎ ((length (take n (most_common ks)) ≡ n)
          × (all (λ p. leb (count k ks) p.1) (take n (most_common ks)) ≡ true))
unfolding most_common
take-most_common n ks k h =
    in_prefix more_common n (most_common ks) (k, count k ks)
      (sorted-IsSorted more_common more_common-TotalOrder (counter ks))
      ((contains-most_common ks k (count k ks)).1 (h, refl))
