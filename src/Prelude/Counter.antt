-- ===== src/Prelude/Counter.antt =====
-- Python's `Counter` and its `most_common`.
pub mod Sums
pub mod Top
use Prim.Native.Nat.{ℕ, zero, suc, ◌+◌, ◌≤◌}
use mathlib.Core.Path.{◌≡◌, refl, sym, subst}
use mathlib.Core.Logic.{◌⊎◌, ◌↔◌, inl, inr}
use mathlib.Core.Bool.{Bool, true, false, ◌&&◌, ◌||◌}
use mathlib.Core.Option.{Option, none, some}
use mathlib.Core.List.{List, [], ◌∷◌}
use native.Mathlib.Omega.{arith}
use envoy_modsecurity.Prelude.Tests.{if◌then◌else◌, Bool-cases, leb}
use envoy_modsecurity.Prelude.Equality.{Eq, ◌==◌, pair_eq, nat_eq, beq_refl}
use envoy_modsecurity.Prelude.Lists.{
  length, take, all, contains, count, sum_of, all_of_all, mem_of_contains,
}
use envoy_modsecurity.Prelude.Dicts.{
  Dict, get, has_key, set_item, has_key-update_item, get-some_of_has_key, set_default, update_item,
  get-set_default, has_key-set_default, get-none_iff, HasDistinctKeys, set_default-HasDistinctKeys,
  update_item-HasDistinctKeys,
}
use envoy_modsecurity.Prelude.Sorting.{
  TotalOrder, sorted, IsSorted, sorted-IsSorted, contains-sorted, sum_of-sorted,
}

-- The order of `most_common`: larger counts first.
abbrev pub more_common {ℓ} : {K : Type ℓ} → K × ℕ → K × ℕ → Bool
more_common p q = leb q.1 p.1

module _ {ℓ} {K : Type ℓ} ⦃e : Eq K⦄ where
  unfoldable pub counter_from : List K → Dict K ℕ → Dict K ℕ
  unfolding set_default update_item
  counter_from [] d = d
  counter_from (k ∷ ks) d = counter_from ks (update_item k suc (set_default k 0 d))

  -- `Counter(ks)`, whose items are in the order of the first occurrences.
  unfoldable pub counter : List K → Dict K ℕ
  unfolding counter_from
  counter ks = counter_from ks []

  -- `Counter(ks).most_common()`
  unfoldable pub most_common : List K → List (K × ℕ)
  unfolding counter sorted
  most_common ks = sorted more_common (counter ks)

  -- What the dict counts for a key.
  abbrev pub counted : K → Dict K ℕ → ℕ
  counted k d = elim (get k d) [ none ↦ 0 | some c ↦ c ]

  counted-update_item :
      (k j : K) (d : Dict K ℕ)
      → has_key k d ≡ true
      → counted j (update_item k suc d) ≡ (if j == k then suc (counted j d) else counted j d)
  unfolding update_item get has_key
  counted-update_item k j [] h = cc
  counted-update_item k j ((i, c) ∷ d) h =
      ground (arith, e.beq_iff k i, e.beq_iff j i, e.beq_iff j k, counted-update_item k j d)

  counted-set_default : (k j : K) (d : Dict K ℕ) → counted j (set_default k 0 d) ≡ counted j d
  counted-set_default k j d =
      ground (arith, get-set_default k j 0 d, e.beq_iff j k, get-none_iff j d)

  counted-update :
      (k j : K) (d : Dict K ℕ)
      → counted j (update_item k suc (set_default k 0 d))
        ≡ (if j == k then suc (counted j d) else counted j d)
  counted-update k j d =
      let present : has_key k (set_default k 0 d) ≡ true =
        ground (arith, has_key-set_default k k 0 d, beq_refl k) in
      ground (arith, counted-update_item k j (set_default k 0 d) present, counted-set_default k j d)

  counter_from-HasDistinctKeys :
      (ks : List K) (d : Dict K ℕ) → HasDistinctKeys d → HasDistinctKeys (counter_from ks d)
  unfolding counter_from
  counter_from-HasDistinctKeys [] d h = h
  counter_from-HasDistinctKeys (k ∷ ks) d h =
      counter_from-HasDistinctKeys ks (update_item k suc (set_default k 0 d)) (
        update_item-HasDistinctKeys k suc (set_default k 0 d) (set_default-HasDistinctKeys k 0 d h))

  counted-counter_from :
      (j : K) (ks : List K) (d : Dict K ℕ)
      → counted j (counter_from ks d) ≡ count j ks + counted j d
  unfolding counter_from count
  counted-counter_from j [] d = omega arith
  counted-counter_from j (k ∷ ks) d = ground (
    arith,
    counted-counter_from j ks (update_item k suc (set_default k 0 d)),
    counted-update k j d,
  )

  has_key_of_contains :
      (d : Dict K ℕ) (k : K) (c : ℕ) → contains d (k, c) ≡ true → has_key k d ≡ true
  unfolding contains has_key
  has_key_of_contains [] k c m = cc
  has_key_of_contains ((j, v) ∷ d) k c m = ground (arith, has_key_of_contains d k c)

  get_of_contains :
      (d : Dict K ℕ) (k : K) (c : ℕ)
      → HasDistinctKeys d
      → contains d (k, c) ≡ true
      → get k d ≡ some c
  unfolding contains get
  get_of_contains [] k c h m = cc
  get_of_contains ((j, v) ∷ d) k c (new, h) m = elim (Bool-cases (k == j)) [
    | inl same ↦
        let other : has_key k d ≡ false =
          subst (λ i. has_key i d ≡ false) (sym ((e.beq_iff k j).0 same)) new in
        elim (Bool-cases (contains d (k, c))) [
          | inl later ↦ absurd (ground (arith, has_key_of_contains d k c later))
          | inr here ↦ ground arith
        ]
    | inr other ↦ ground (arith, get_of_contains d k c h)
  ]

  contains_of_get : (d : Dict K ℕ) (k : K) (c : ℕ) → get k d ≡ some c → contains d (k, c) ≡ true
  unfolding contains get
  contains_of_get [] k c g = cc
  contains_of_get ((j, v) ∷ d) k c g = ground (arith, contains_of_get d k c)

  has_key-counter_from :
      (j : K) (ks : List K) (d : Dict K ℕ)
      → has_key j (counter_from ks d) ≡ (contains ks j || has_key j d)
  unfolding counter_from contains
  has_key-counter_from j [] d = refl
  has_key-counter_from j (k ∷ ks) d = ground (
    arith,
    has_key-counter_from j ks (update_item k suc (set_default k 0 d)),
    has_key-update_item k j suc (set_default k 0 d),
    has_key-set_default k j 0 d,
  )

  counter-HasDistinctKeys : (ks : List K) → HasDistinctKeys (counter ks)
  unfolding counter
  counter-HasDistinctKeys ks = counter_from-HasDistinctKeys ks [] tt

  counted-counter : (j : K) (ks : List K) → counted j (counter ks) ≡ count j ks
  unfolding counter get
  counted-counter j ks = omega (arith, counted-counter_from j ks [])

  has_key-counter : (j : K) (ks : List K) → has_key j (counter ks) ≡ contains ks j
  unfolding counter has_key
  has_key-counter j ks = ground (arith, has_key-counter_from j ks [])

  -- The entries are the keys that occur, each with the number of its occurrences.
  pub contains-most_common :
      (ks : List K) (k : K) (c : ℕ)
      → (contains (most_common ks) (k, c) ≡ true) ↔ (contains ks k ≡ true) × (c ≡ count k ks)
  unfolding most_common
  contains-most_common ks k c = (
    λ h.
        let entry : contains (counter ks) (k, c) ≡ true =
          ground (arith, contains-sorted more_common (counter ks) (k, c)) in
        let found = get_of_contains (counter ks) k c (counter-HasDistinctKeys ks) entry in
        (
          ground (arith, has_key_of_contains (counter ks) k c, has_key-counter k ks),
          ground (arith, counted-counter k ks),
        ),
    λ h.
        let (v, found) =
          get-some_of_has_key k (counter ks) (ground (arith, has_key-counter k ks)) in
        let same : v ≡ c = ground (arith, counted-counter k ks) in
        ground (
          arith,
          contains-sorted more_common (counter ks) (k, c),
          contains_of_get (counter ks) k c (subst (λ n. get k (counter ks) ≡ some n) same found),
        ),
  )
