-- ===== src/Report/Timing.antt =====
-- `percentile` of tools/crs-compatibility-report.py, over the run times in nanoseconds. The
-- product `int(len(ordered) * fraction)` is a computation on floats: it is the parameter
-- `scaled`, of which nothing is assumed.
use envoy_modsecurity.Prelude.{
  ℕ, zero, suc, ◌+◌, ◌-◌, ◌≤◌, ◌<◌, min, max, ◌≡◌, refl, ◌≢◌, Bool, true, List, [], ◌∷◌, Option,
  none, some, Mem, arith, leb, if◌then◌else◌,
}
use mathlib.Core.List.{mem-cons}
use mathlib.Core.List.Perm
use mathlib.Core.Logic.Or
use envoy_modsecurity.Prelude.Lists.{length, get_elem?, sum_of, all, get_elem?-lt}
use envoy_modsecurity.Prelude.Sorting.{
  sorted, IsSorted, sorted-IsSorted, sorted-perm, leb-TotalOrder, length-sorted, sum_of-sorted,
}

-- `max(0, k - 1)` is the difference of natural numbers, which stops at 0.
unfoldable pub percentile_index : (ℕ → ℕ) → ℕ → ℕ
percentile_index scaled n = min (n - 1) (scaled n - 1)

-- `none` is `None`, for no values.
unfoldable pub percentile : (ℕ → ℕ) → List ℕ → Option ℕ
unfolding sorted percentile_index
percentile scaled [] = none
percentile scaled (x ∷ xs) =
    let ordered = sorted leb (x ∷ xs) in
    get_elem? ordered (percentile_index scaled (length ordered))

found_percentile :
    (scaled : ℕ → ℕ) (x : ℕ) (xs : List ℕ) (v : ℕ)
    → get_elem? (sorted leb (x ∷ xs)) (percentile_index scaled (length (sorted leb (x ∷ xs))))
      ≡ some v
    → percentile scaled (x ∷ xs) ≡ some v
unfolding percentile
found_percentile scaled x xs v h = h

-- How many values are at most, and at least, `v`.
abbrev pub at_most : ℕ → List ℕ → ℕ
at_most v xs = sum_of (λ x. if leb x v then 1 else 0) xs

abbrev pub at_least : ℕ → List ℕ → ℕ
at_least v xs = sum_of (λ x. if leb v x then 1 else 0) xs

mem_of_get_elem? : (xs : List ℕ) (i : ℕ) (v : ℕ) → get_elem? xs i ≡ some v → Mem v xs
mem_of_get_elem? [] i v h = cc
mem_of_get_elem? (x ∷ xs) zero v h = mem-cons.1 (Or.inl (cc))
mem_of_get_elem? (x ∷ xs) (suc i) v h = mem-cons.1 (Or.inr (mem_of_get_elem? xs i v h))

all-get_elem? :
    (p : ℕ → Bool) (xs : List ℕ) (i v : ℕ) → all p xs ≡ true → get_elem? xs i ≡ some v → p v ≡ true
unfolding all
all-get_elem? p [] i v h k = cc
all-get_elem? p (x ∷ xs) zero v h k = ground arith
all-get_elem? p (x ∷ xs) (suc i) v h k = all-get_elem? p xs i v (ground arith) k

all-at_least : (v : ℕ) (xs : List ℕ) → all (leb v) xs ≡ true → at_least v xs ≡ length xs
unfolding all sum_of
all-at_least v [] h = refl
all-at_least v (x ∷ xs) h = ground (arith, all-at_least v xs)

-- In a sorted list, the elements up to a place are at most the element there.
rank_below :
    (xs : List ℕ) (i v : ℕ) → IsSorted leb xs → get_elem? xs i ≡ some v → i + 1 ≤ at_most v xs
unfolding sum_of all
rank_below [] i v s h = cc
rank_below (x ∷ xs) zero v s h = ground arith
rank_below (x ∷ xs) (suc i) v (b, s) h =
    ground (arith, rank_below xs i v s h, all-get_elem? (leb x) xs i v b h)

rank_above :
    (xs : List ℕ) (i v : ℕ)
    → IsSorted leb xs
    → get_elem? xs i ≡ some v
    → length xs ≤ at_least v xs + i
unfolding sum_of all
rank_above [] i v s h = cc
rank_above (x ∷ xs) zero v (b, s) h = ground (arith, all-at_least x xs b)
rank_above (x ∷ xs) (suc i) v (b, s) h = ground (arith, rank_above xs i v s h)

-- `min(n, max(1, int(n * fraction)))`, the rank that a percentile should have.
abbrev pub rank : (ℕ → ℕ) → ℕ → ℕ
rank scaled n = min n (max 1 (scaled n))

percentile_index-rank :
    (scaled : ℕ → ℕ) (n : ℕ) → 0 < n → percentile_index scaled n + 1 ≡ rank scaled n
unfolding percentile_index
percentile_index-rank scaled n h = omega arith

-- The percentile of a non-empty list of run times is one of them, at its rank: at least rank many
-- of the times are at most it, and at least the others, counting it too, are at least it.
pub percentile-rank :
    (scaled : ℕ → ℕ) (values : List ℕ)
    → values ≢ []
    → (v : ℕ) × (percentile scaled values ≡ some v)
      × Mem v values
      × (rank scaled (length values) ≤ at_most v values)
      × (length values + 1 ≤ at_least v values + rank scaled (length values))
percentile-rank scaled [] h = absurd (h refl)
percentile-rank scaled (x ∷ xs) h =
    let values : List ℕ = x ∷ xs in
    let ordered = sorted leb values in
    let i = percentile_index scaled (length ordered) in
    let same = length-sorted leb values in
    let ranked = percentile_index-rank scaled (length ordered) (omega arith) in
    let (v, found) = get_elem?-lt ordered i (omega arith) in
    let order = sorted-IsSorted leb leb-TotalOrder values in
    (
      v,
      found_percentile scaled x xs v found,
      (Perm.mem_iff (sorted-perm leb values)).0 (mem_of_get_elem? ordered i v found),
      rw (← same) (
          omega (
            arith,
            rank_below ordered i v order found,
            sum_of-sorted leb (λ y. if leb y v then 1 else 0) values,
          )),
      rw (← same) (
          omega (
            arith,
            rank_above ordered i v order found,
            sum_of-sorted leb (λ y. if leb v y then 1 else 0) values,
          )),
    )
