-- ===== src/Prelude/Lists.antt =====
-- Lists measured by native numbers, and Python's `in`, `any`, `all`, `sum` and comprehensions.
use Prim.Native.Nat.{ℕ, zero, suc, ◌+◌, ◌<◌}
use mathlib.Core.Path.{◌≡◌, refl, ap, ◌∙◌}
use mathlib.Core.Logic.{◌↔◌, inl, inr}
use mathlib.Core.Logic.Or
use mathlib.Core.Bool.{Bool, true, false, ◌&&◌, ◌||◌, Bool-set}
use mathlib.Core.Option.{Option, none, some}
use mathlib.Core.List.{List, [], ◌∷◌, ◌++◌, reverse, reverse-cons, Mem, mem-cons, not-mem-nil}
use native.Mathlib.Omega.{arith}
use envoy_modsecurity.Prelude.Tests.{if◌then◌else◌, Bool-cases}
use envoy_modsecurity.Prelude.Equality.{Eq, ◌==◌}

module _ {ℓ} {A : Type ℓ} where
  abbrev pub length : List A → ℕ
  length [] = 0
  length (x ∷ xs) = suc (length xs)

  -- `xs[:n]`
  abbrev pub take : ℕ → List A → List A
  take zero xs = []
  take (suc n) [] = []
  take (suc n) (x ∷ xs) = x ∷ take n xs

  abbrev pub get_elem? : List A → ℕ → Option A
  get_elem? [] i = none
  get_elem? (x ∷ xs) zero = some x
  get_elem? (x ∷ xs) (suc i) = get_elem? xs i

  -- `[x for x in xs if p(x)]`
  unfoldable pub filter : (A → Bool) → List A → List A
  filter p [] = []
  filter p (x ∷ xs) = if p x then x ∷ filter p xs else filter p xs

  unfoldable pub any : (A → Bool) → List A → Bool
  any p [] = false
  any p (x ∷ xs) = p x || any p xs

  unfoldable pub all : (A → Bool) → List A → Bool
  all p [] = true
  all p (x ∷ xs) = p x && all p xs

  -- `sum(f(x) for x in xs)`
  unfoldable pub sum_of : (A → ℕ) → List A → ℕ
  sum_of f [] = 0
  sum_of f (x ∷ xs) = f x + sum_of f xs

  abbrev pub is_empty : List A → Bool
  is_empty [] = true
  is_empty (x ∷ xs) = false

module _ {ℓ} {A : Type ℓ} where
  pub length-append : (xs ys : List A) → length (xs ++ ys) ≡ length xs + length ys
  length-append [] ys = omega arith
  length-append (x ∷ xs) ys = omega (arith, length-append xs ys)

  pub get_elem?-lt : (xs : List A) (i : ℕ) → i < length xs → (x : A) × (get_elem? xs i ≡ some x)
  get_elem?-lt [] i h = elim h [ ]
  get_elem?-lt (x ∷ xs) zero h = (x, refl)
  get_elem?-lt (x ∷ xs) (suc i) h = get_elem?-lt xs i (omega arith)

  pub is_empty_iff : (xs : List A) → (is_empty xs ≡ true) ↔ (xs ≡ [])
  is_empty_iff [] = (λ _. refl, λ _. refl)
  is_empty_iff (x ∷ xs) = (λ h. cc, λ h. cc)

  pub all_of_all : (p : A → Bool) (xs : List A) → all p xs ≡ true → (x : A) → Mem x xs → p x ≡ true
  unfolding all
  all_of_all p [] h x m = absurd (not-mem-nil m)
  all_of_all p (y ∷ xs) h x m =
      Or.elim (Bool-set _ _) (mem-cons.0 m) (λ e. rw e (ground arith))
        (all_of_all p xs (ground arith) x)

  pub sum_of-append : (f : A → ℕ) (xs ys : List A) → sum_of f (xs ++ ys) ≡ sum_of f xs + sum_of f ys
  unfolding sum_of
  sum_of-append f [] ys = omega arith
  sum_of-append f (x ∷ xs) ys = omega (arith, sum_of-append f xs ys)

module _ {ℓ} {A : Type ℓ} (p : A → Bool) where
  pub any-append : (xs ys : List A) → any p (xs ++ ys) ≡ (any p xs || any p ys)
  unfolding any
  any-append [] ys = refl
  any-append (x ∷ xs) ys = ground (arith, any-append xs ys)

  pub any-reverse : (xs : List A) → any p (reverse xs) ≡ any p xs
  unfolding any
  any-reverse [] = refl
  any-reverse (x ∷ xs) =
      ap (any p) (reverse-cons x xs)
      ∙ any-append (reverse xs) (x ∷ [])
      ∙ ground (arith, any-reverse xs)

-- `a in xs`
module _ {ℓ} {A : Type ℓ} ⦃e : Eq A⦄ where
  unfoldable pub contains : List A → A → Bool
  contains [] a = false
  contains (x ∷ xs) a = a == x || contains xs a

  -- `Counter(xs)[a]`
  unfoldable pub count : A → List A → ℕ
  count a [] = 0
  count a (x ∷ xs) = if a == x then suc (count a xs) else count a xs

module _ {ℓ} {A : Type ℓ} ⦃e : Eq A⦄ where
  pub mem_of_contains : (xs : List A) (a : A) → contains xs a ≡ true → Mem a xs
  unfolding contains
  mem_of_contains [] a h = cc
  mem_of_contains (x ∷ xs) a h = elim (Bool-cases (a == x)) [
    | inl same ↦ mem-cons.1 (Or.inl ((e.beq_iff a x).0 same))
    | inr other ↦ mem-cons.1 (Or.inr (mem_of_contains xs a (ground arith)))
  ]

  pub contains_of_mem : (xs : List A) (a : A) → Mem a xs → contains xs a ≡ true
  unfolding contains
  contains_of_mem [] a m = absurd (not-mem-nil m)
  contains_of_mem (x ∷ xs) a m =
      Or.elim (Bool-set _ _) (mem-cons.0 m) (λ p. ground (arith, (e.beq_iff a x).1 p))
        (λ r. ground (arith, contains_of_mem xs a r))

  pub contains_iff : (xs : List A) (a : A) → (contains xs a ≡ true) ↔ Mem a xs
  contains_iff xs a = (mem_of_contains xs a, contains_of_mem xs a)

  pub contains-append :
      (xs ys : List A) (a : A) → contains (xs ++ ys) a ≡ (contains xs a || contains ys a)
  unfolding contains
  contains-append [] ys a = refl
  contains-append (x ∷ xs) ys a = ground (arith, contains-append xs ys a)

  pub contains-filter :
      (p : A → Bool) (xs : List A) (a : A) → contains (filter p xs) a ≡ (contains xs a && p a)
  unfolding contains filter
  contains-filter p [] a = refl
  contains-filter p (x ∷ xs) a = elim (Bool-cases (a == x)) [
    | inl same ↦
        rw ((e.beq_iff a x).0 same) (ground (arith, contains-filter p xs x, (e.beq_iff x x).1 refl))
    | inr other ↦ ground (arith, contains-filter p xs a)
  ]

  pub count-append : (a : A) (xs ys : List A) → count a (xs ++ ys) ≡ count a xs + count a ys
  unfolding count
  count-append a [] ys = omega arith
  count-append a (x ∷ xs) ys = ground (arith, count-append a xs ys)

  pub count-zero : (a : A) (xs : List A) → contains xs a ≡ false → count a xs ≡ 0
  unfolding count contains
  count-zero a [] h = refl
  count-zero a (x ∷ xs) h = ground (arith, count-zero a xs)

  pub count-pos : (a : A) (xs : List A) → contains xs a ≡ true → 0 < count a xs
  unfolding count contains
  count-pos a [] h = cc
  count-pos a (x ∷ xs) h = ground (arith, count-pos a xs)
