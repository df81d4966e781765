-- ===== src/Prelude/Sets.antt =====
-- Python's `set` as a list without repetition. The program only tests membership, subtracts,
-- intersects, compares, counts and sorts sets, so the order of the list is never seen.
use Prim.Native.Nat.{◌≤◌}
use mathlib.Core.Path.{◌≡◌, refl}
use mathlib.Core.Logic.{◌↔◌, inl, inr}
use mathlib.Core.Bool.{Bool, true, false, not, ◌&&◌}
use mathlib.Core.List.{List, [], ◌∷◌}
use native.Mathlib.Omega.{arith}
use envoy_modsecurity.Prelude.Tests.{if◌then◌else◌, Bool-cases, ltb}
use envoy_modsecurity.Prelude.Equality.{Eq, ◌==◌}
use envoy_modsecurity.Prelude.Lists.{
  filter, all, contains, count, contains-filter, count-zero, count-pos,
}

module _ {ℓ} {A : Type ℓ} ⦃e : Eq A⦄ where
  -- `set(xs)`
  unfoldable pub to_set : List A → List A
  to_set [] = []
  to_set (x ∷ xs) = let rest = to_set xs in if contains rest x then rest else x ∷ rest

  -- `s - t`
  unfoldable pub difference : List A → List A → List A
  difference s t = filter (λ x. not (contains t x)) s

  -- `s & t`
  unfoldable pub intersection : List A → List A → List A
  intersection s t = filter (contains t) s

  -- `s == t`
  unfoldable pub set_beq : List A → List A → Bool
  set_beq s t = all (contains t) s && all (contains s) t

  -- `{x for x, n in Counter(xs).items() if n > 1}`
  unfoldable pub repeated : List A → List A
  unfolding to_set
  repeated xs = filter (λ x. ltb 1 (count x xs)) (to_set xs)

module _ {ℓ} {A : Type ℓ} ⦃e : Eq A⦄ where
  pub contains-to_set : (xs : List A) (a : A) → contains (to_set xs) a ≡ contains xs a
  unfolding to_set contains
  contains-to_set [] a = refl
  contains-to_set (x ∷ xs) a = elim (Bool-cases (a == x)) [
    | inl same ↦
        rw ((e.beq_iff a x).0 same) (ground (arith, contains-to_set xs x, (e.beq_iff x x).1 refl))
    | inr other ↦ ground (arith, contains-to_set xs a)
  ]

  pub contains-difference :
      (s t : List A) (a : A) → contains (difference s t) a ≡ (contains s a && not (contains t a))
  unfolding difference
  contains-difference s t a = contains-filter (λ x. not (contains t x)) s a

  pub contains-intersection :
      (s t : List A) (a : A) → contains (intersection s t) a ≡ (contains s a && contains t a)
  unfolding intersection
  contains-intersection s t a = contains-filter (contains t) s a

  -- An empty list has no members, and a list with no members is empty.
  pub eq-nil_iff_contains : (xs : List A) → (xs ≡ []) ↔ ((a : A) → contains xs a ≡ false)
  unfolding contains
  eq-nil_iff_contains [] = (λ _ a. refl, λ _. refl)
  eq-nil_iff_contains (x ∷ xs) =
      (λ h. cc, λ h. absurd (ground (arith, h x, (e.beq_iff x x).1 refl)))

  all-contains_iff :
      (s t : List A)
      → (all (contains t) s ≡ true) ↔ ((a : A) → contains s a ≡ true → contains t a ≡ true)
  unfolding all contains
  all-contains_iff [] t = (λ _ a h. cc, λ _. refl)
  all-contains_iff (x ∷ s) t = (
    λ h a m. elim (Bool-cases (a == x)) [
      | inl same ↦ rw ((e.beq_iff a x).0 same) (ground arith)
      | inr other ↦ (all-contains_iff s t).0 (ground arith) a (ground arith)
    ],
    λ h.
        ground (
          arith,
          h x,
          (e.beq_iff x x).1 refl,
          (all-contains_iff s t).1 (λ a m. h a (ground arith)),
        ),
  )

  -- Two sets are equal when they have the same members.
  pub set_beq_iff : (s t : List A) → (set_beq s t ≡ true) ↔ ((a : A) → contains s a ≡ contains t a)
  unfolding set_beq
  set_beq_iff s t = (
    λ h a. ground (
      arith,
      (all-contains_iff s t).0 (ground arith) a,
      (all-contains_iff t s).0 (ground arith) a,
    ),
    λ h. ground (
      arith,
      (all-contains_iff s t).1 (λ a m. ground (arith, h a)),
      (all-contains_iff t s).1 (λ a m. ground (arith, h a)),
    ),
  )

  -- No element is repeated exactly when every element is counted at most once.
  pub repeated-eq-nil_iff : (xs : List A) → (repeated xs ≡ []) ↔ ((a : A) → count a xs ≤ 1)
  unfolding repeated
  repeated-eq-nil_iff xs = (
    λ h a. elim (Bool-cases (contains xs a)) [
      | inl inside ↦ ground (
        arith,
        (eq-nil_iff_contains (repeated xs)).0 h a,
        contains-filter (λ x. ltb 1 (count x xs)) (to_set xs) a,
        contains-to_set xs a,
      )
      | inr outside ↦ omega (arith, count-zero a xs outside)
    ],
    λ h.
        (eq-nil_iff_contains (repeated xs)).1
          (λ a. ground (arith, h a, contains-filter (λ x. ltb 1 (count x xs)) (to_set xs) a)),
  )

  -- What is counted at most once is counted once or is no member.
  pub count_of_le-one :
      (xs : List A) (a : A) → count a xs ≤ 1 → count a xs ≡ (if contains xs a then 1 else 0)
  count_of_le-one xs a h = ground (arith, count-zero a xs, count-pos a xs)

  pub count-to_set : (xs : List A) (a : A) → count a (to_set xs) ≤ 1
  unfolding to_set count
  count-to_set [] a = omega arith
  count-to_set (x ∷ xs) a = elim (Bool-cases (a == x)) [
    | inl same ↦
        rw ((e.beq_iff a x).0 same)
          (ground (arith, count-to_set xs x, count-zero x (to_set xs), (e.beq_iff x x).1 refl))
    | inr other ↦ ground (arith, count-to_set xs a)
  ]

  pub count-filter-le : (p : A → Bool) (xs : List A) (a : A) → count a (filter p xs) ≤ count a xs
  unfolding filter count
  count-filter-le p [] a = omega arith
  count-filter-le p (x ∷ xs) a = ground (arith, count-filter-le p xs a)
