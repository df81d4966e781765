-- ===== src/Prelude/Sorting.antt =====
-- Python's `sorted`: a stable sort by a Boolean order. `TotalOrder` holds what its theorems need.
use Prim.Native.Nat.{ℕ, suc, ◌+◌}
use mathlib.Core.Path.{◌≡◌, refl}
use mathlib.Core.Bool.{Bool, true, false, ◌&&◌, ◌||◌}
use mathlib.Core.Logic.{inl, inr}
use mathlib.Core.List.{List, [], ◌∷◌, Perm}
use mathlib.Core.List.Perm
use native.Mathlib.Omega.{arith}
use envoy_modsecurity.Prelude.Tests.{if◌then◌else◌, Bool-cases, leb}
use envoy_modsecurity.Prelude.Equality.{Eq, ◌==◌}
use envoy_modsecurity.Prelude.Lists.{length, contains, count, all, sum_of}

module _ {ℓ} {A : Type ℓ} (le : A → A → Bool) where
  unfoldable pub insert : A → List A → List A
  insert x [] = x ∷ []
  insert x (y ∷ ys) = if le x y then x ∷ y ∷ ys else y ∷ insert x ys

  unfoldable pub sorted : List A → List A
  unfolding insert
  sorted [] = []
  sorted (x ∷ xs) = insert x (sorted xs)

  -- Each element is at most every later one.
  abbrev pub IsSorted : List A → Type 0
  IsSorted [] = Unit
  IsSorted (x ∷ xs) = (all (le x) xs ≡ true) × IsSorted xs

pub record TotalOrder {ℓ} {A : Type ℓ} (le : A → A → Bool) : Type ℓ where
  pub total : (a b : A) → le a b ≡ false → le b a ≡ true
  pub trans : (a b c : A) → le a b ≡ true → le b c ≡ true → le a c ≡ true

module _ {ℓ} {A : Type ℓ} (le : A → A → Bool) where
  pub insert-perm : (x : A) (xs : List A) → Perm (insert le x xs) (x ∷ xs)
  unfolding insert
  insert-perm x [] = Perm.refl _
  insert-perm x (y ∷ ys) = elim (Bool-cases (le x y)) [
    | inl h ↦ rw h (Perm.refl _)
    | inr h ↦ rw h (Perm.trans (Perm.cons y (insert-perm x ys)) (Perm.swap x y ys))
  ]

  -- Sorting rearranges.
  pub sorted-perm : (xs : List A) → Perm (sorted le xs) xs
  unfolding sorted
  sorted-perm [] = Perm.refl _
  sorted-perm (x ∷ xs) = Perm.trans (insert-perm x (sorted le xs)) (Perm.cons x (sorted-perm xs))

  length-insert : (x : A) (xs : List A) → length (insert le x xs) ≡ suc (length xs)
  unfolding insert
  length-insert x [] = refl
  length-insert x (y ∷ ys) = ground (arith, length-insert x ys)

  pub length-sorted : (xs : List A) → length (sorted le xs) ≡ length xs
  unfolding sorted
  length-sorted [] = refl
  length-sorted (x ∷ xs) = omega (arith, length-insert x (sorted le xs), length-sorted xs)

  sum_of-insert : (f : A → ℕ) (x : A) (xs : List A) → sum_of f (insert le x xs) ≡ f x + sum_of f xs
  unfolding insert sum_of
  sum_of-insert f x [] = refl
  sum_of-insert f x (y ∷ ys) = ground (arith, sum_of-insert f x ys)

  pub sum_of-sorted : (f : A → ℕ) (xs : List A) → sum_of f (sorted le xs) ≡ sum_of f xs
  unfolding sorted sum_of
  sum_of-sorted f [] = refl
  sum_of-sorted f (x ∷ xs) = omega (arith, sum_of-insert f x (sorted le xs), sum_of-sorted f xs)

  all-insert : (p : A → Bool) (x : A) (xs : List A) → all p (insert le x xs) ≡ (p x && all p xs)
  unfolding insert all
  all-insert p x [] = refl
  all-insert p x (y ∷ ys) = ground (arith, all-insert p x ys)

  pub all-sorted : (p : A → Bool) (xs : List A) → all p (sorted le xs) ≡ all p xs
  unfolding sorted all
  all-sorted p [] = refl
  all-sorted p (x ∷ xs) = ground (arith, all-insert p x (sorted le xs), all-sorted p xs)

  module _ (o : TotalOrder le) where
    all_weaken :
        (x y : A) (ys : List A) → le x y ≡ true → all (le y) ys ≡ true → all (le x) ys ≡ true
    unfolding all
    all_weaken x y [] h k = refl
    all_weaken x y (z ∷ ys) h k = ground (arith, o.trans x y z h, all_weaken x y ys h)

    insert-IsSorted : (x : A) (xs : List A) → IsSorted le xs → IsSorted le (insert le x xs)
    unfolding insert all
    insert-IsSorted x [] s = (refl, tt)
    insert-IsSorted x (y ∷ ys) (b, s) = elim (Bool-cases (le x y)) [
      | inl h ↦ rw h (ground (arith, all_weaken x y ys h b), (b, s))
      | inr h ↦ rw h (ground (arith, all-insert (le y) x ys, o.total x y h), insert-IsSorted x ys s)
    ]

    -- The result is in order.
    pub sorted-IsSorted : (xs : List A) → IsSorted le (sorted le xs)
    unfolding sorted
    sorted-IsSorted [] = tt
    sorted-IsSorted (x ∷ xs) = insert-IsSorted x (sorted le xs) (sorted-IsSorted xs)

module _ {ℓ} {A : Type ℓ} ⦃e : Eq A⦄ (le : A → A → Bool) where
  contains-insert :
      (x : A) (xs : List A) (a : A) → contains (insert le x xs) a ≡ (a == x || contains xs a)
  unfolding insert contains
  contains-insert x [] a = refl
  contains-insert x (y ∷ ys) a = ground (arith, contains-insert x ys a)

  pub contains-sorted : (xs : List A) (a : A) → contains (sorted le xs) a ≡ contains xs a
  unfolding sorted contains
  contains-sorted [] a = refl
  contains-sorted (x ∷ xs) a =
      ground (arith, contains-insert x (sorted le xs) a, contains-sorted xs a)

leb-TotalOrder_total : (a b : ℕ) → leb a b ≡ false → leb b a ≡ true
leb-TotalOrder_total a b h = ground arith

leb-TotalOrder_trans : (a b c : ℕ) → leb a b ≡ true → leb b c ≡ true → leb a c ≡ true
leb-TotalOrder_trans a b c h k = ground arith

pub leb-TotalOrder : TotalOrder leb
leb-TotalOrder = record { total = leb-TotalOrder_total; trans = leb-TotalOrder_trans }

module _ {ℓ} {A : Type ℓ} ⦃e : Eq A⦄ (le : A → A → Bool) where
  count-insert :
      (x : A) (xs : List A) (a : A)
      → count a (insert le x xs) ≡ (if a == x then suc (count a xs) else count a xs)
  unfolding insert count
  count-insert x [] a = refl
  count-insert x (y ∷ ys) a = ground (arith, count-insert x ys a)

  pub count-sorted : (xs : List A) (a : A) → count a (sorted le xs) ≡ count a xs
  unfolding sorted count
  count-sorted [] a = refl
  count-sorted (x ∷ xs) a = ground (arith, count-insert x (sorted le xs) a, count-sorted xs a)
