-- ===== src/Prelude/Equality.antt =====
-- Python's `==` on the types that the program compares.
use Prim.Native.Nat.{ℕ}
use mathlib.Core.Path.{◌≡◌, refl}
use mathlib.Core.Logic.{◌↔◌}
use mathlib.Core.Bool.{Bool, true, false, ◌&&◌}
use mathlib.Core.List.{List, [], ◌∷◌}
use native.Mathlib.Omega.{arith}
use envoy_modsecurity.Prelude.Tests.{nat_beq, nat_beq_iff}

pub record Eq {ℓ} (A : Type ℓ) : Type ℓ where
  pub beq : A → A → Bool
  pub beq_iff : (x y : A) → (beq x y ≡ true) ↔ (x ≡ y)

instance abbrev pub nat_eq : Eq ℕ
nat_eq = record { beq = nat_beq; beq_iff = nat_beq_iff }

-- The operator for every type with an instance.
infix 50 ◌==◌
abbrev pub ◌==◌ {ℓ} : {A : Type ℓ} ⦃i : Eq A⦄ (x y : A) → Bool
◌==◌ ⦃i⦄ x y = i.beq x y

unfoldable pub list_beq {ℓ} : {A : Type ℓ} ⦃e : Eq A⦄ → List A → List A → Bool
list_beq [] [] = true
list_beq [] (y ∷ ys) = false
list_beq (x ∷ xs) [] = false
list_beq (x ∷ xs) (y ∷ ys) = x == y && list_beq xs ys

pub list_beq_sound {ℓ} : {A : Type ℓ} ⦃e : Eq A⦄ (xs ys : List A) → list_beq xs ys ≡ true → xs ≡ ys
unfolding list_beq
list_beq_sound ⦃e⦄ [] [] h = refl
list_beq_sound ⦃e⦄ [] (y ∷ ys) h = cc
list_beq_sound ⦃e⦄ (x ∷ xs) [] h = cc
list_beq_sound ⦃e⦄ (x ∷ xs) (y ∷ ys) h =
    ground (arith, (e.beq_iff x y).0, list_beq_sound ⦃e = e⦄ xs ys)

pub list_beq_refl {ℓ} : {A : Type ℓ} ⦃e : Eq A⦄ (xs : List A) → list_beq xs xs ≡ true
unfolding list_beq
list_beq_refl ⦃e⦄ [] = refl
list_beq_refl ⦃e⦄ (x ∷ xs) = rw ((e.beq_iff x x).1 refl) (list_beq_refl ⦃e = e⦄ xs)

pub list_beq_iff {ℓ} :
    {A : Type ℓ} ⦃e : Eq A⦄ (xs ys : List A) → (list_beq xs ys ≡ true) ↔ (xs ≡ ys)
list_beq_iff ⦃e⦄ xs ys = (list_beq_sound xs ys, λ p. rw p (list_beq_refl ys))

instance abbrev pub list_eq {ℓ} : {A : Type ℓ} ⦃e : Eq A⦄ → Eq (List A)
list_eq ⦃e⦄ = record { beq = list_beq; beq_iff = list_beq_iff }

abbrev pub pair_beq {ℓ κ} : {A : Type ℓ} {B : Type κ} ⦃d : Eq A⦄ ⦃e : Eq B⦄ → A × B → A × B → Bool
pair_beq (a, b) (c, d) = a == c && b == d

pub pair_beq_iff {ℓ κ} :
    {A : Type ℓ} {B : Type κ} ⦃d : Eq A⦄ ⦃e : Eq B⦄ (p q : A × B) → (pair_beq p q ≡ true) ↔ (p ≡ q)
pair_beq_iff ⦃d⦄ ⦃e⦄ (a, b) (a', b') = ground (arith, d.beq_iff a a', e.beq_iff b b')

instance abbrev pub pair_eq {ℓ κ} : {A : Type ℓ} {B : Type κ} ⦃d : Eq A⦄ ⦃e : Eq B⦄ → Eq (A × B)
pair_eq ⦃d⦄ ⦃e⦄ = record { beq = pair_beq; beq_iff = pair_beq_iff }

pub beq_refl {ℓ} : {A : Type ℓ} ⦃e : Eq A⦄ (a : A) → (a == a) ≡ true
beq_refl ⦃e⦄ a = (e.beq_iff a a).1 refl
