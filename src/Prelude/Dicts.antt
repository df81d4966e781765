-- ===== src/Prelude/Dicts.antt =====
-- Python's `dict`: an association list in insertion order. An assignment to a key that is there
-- keeps its place; a new key goes last.
use Prim.Native.Nat.{◌+◌, ◌≤◌}
use mathlib.Core.Path.{◌≡◌, refl, sym, ◌∙◌}
use mathlib.Core.Logic.{inl, inr}
use mathlib.Core.Bool.{Bool, true, false, not, ◌&&◌, ◌||◌}
use mathlib.Core.Option.{Option, none, some}
use mathlib.Core.Bool.{false≢true}
use mathlib.Core.List.{List, [], ◌∷◌, Nodup, Nodup-nil, Nodup-cons}
use native.Mathlib.Omega.{arith}
use envoy_modsecurity.Prelude.Tests.{if◌then◌else◌, Bool-cases}
use envoy_modsecurity.Prelude.Equality.{Eq, ◌==◌, pair_eq}
use envoy_modsecurity.Prelude.Lists.{contains, contains_of_mem, length}

abbrev pub Dict {ℓ κ} : Type ℓ → Type κ → Type (ℓ ⊔ κ)
Dict K V = List (K × V)

module _ {ℓ κ} {K : Type ℓ} {V : Type κ} where
  abbrev pub keys : Dict K V → List K
  keys [] = []
  keys ((k, v) ∷ d) = k ∷ keys d

  abbrev pub values : Dict K V → List V
  values [] = []
  values ((k, v) ∷ d) = v ∷ values d

module _ {ℓ κ} {K : Type ℓ} {V : Type κ} ⦃e : Eq K⦄ where
  -- `d.get(k)`
  unfoldable pub get : K → Dict K V → Option V
  get k [] = none
  get k ((j, v) ∷ d) = if k == j then some v else get k d

  -- `k in d`
  unfoldable pub has_key : K → Dict K V → Bool
  has_key k [] = false
  has_key k ((j, v) ∷ d) = k == j || has_key k d

  -- `d[k] = v`
  unfoldable pub set_item : K → V → Dict K V → Dict K V
  set_item k v [] = (k, v) ∷ []
  set_item k v ((j, w) ∷ d) = if k == j then (j, v) ∷ d else (j, w) ∷ set_item k v d

  -- `d.setdefault(k, v)`, as the new dict
  unfoldable pub set_default : K → V → Dict K V → Dict K V
  unfolding has_key set_item
  set_default k v d = if has_key k d then d else set_item k v d

  -- The dict after a change of the mutable object that `d[k]` holds.
  unfoldable pub update_item : K → (V → V) → Dict K V → Dict K V
  update_item k f [] = []
  update_item k f ((j, v) ∷ d) = if k == j then (j, f v) ∷ d else (j, v) ∷ update_item k f d

  -- No key occurs twice.
  abbrev pub HasDistinctKeys : Dict K V → Type 0
  HasDistinctKeys [] = Unit
  HasDistinctKeys ((k, v) ∷ d) = (has_key k d ≡ false) × HasDistinctKeys d

  pub has_key-set_item :
      (k j : K) (v : V) (d : Dict K V) → has_key j (set_item k v d) ≡ (j == k || has_key j d)
  unfolding has_key set_item
  has_key-set_item k j v [] = refl
  has_key-set_item k j v ((i, w) ∷ d) = elim (Bool-cases (k == i)) [
    | inl same ↦ rw ((e.beq_iff k i).0 same) (ground (arith, (e.beq_iff i i).1 refl))
    | inr other ↦ ground (arith, has_key-set_item k j v d)
  ]

  pub get-set_item :
      (k j : K) (v : V) (d : Dict K V)
      → get j (set_item k v d) ≡ (if j == k then some v else get j d)
  unfolding get set_item
  get-set_item k j v [] = refl
  get-set_item k j v ((i, w) ∷ d) =
      ground (arith, e.beq_iff j i, e.beq_iff j k, e.beq_iff k i, get-set_item k j v d)

  pub set_item-HasDistinctKeys :
      (k : K) (v : V) (d : Dict K V) → HasDistinctKeys d → HasDistinctKeys (set_item k v d)
  unfolding has_key set_item
  set_item-HasDistinctKeys k v [] h = (refl, tt)
  set_item-HasDistinctKeys k v ((i, w) ∷ d) (a, h) = elim (Bool-cases (k == i)) [
    | inl same ↦ rw same (a, h)
    | inr other ↦ rw other (
      ground (arith, has_key-set_item k i v d, e.beq_iff i k, e.beq_iff k i),
      set_item-HasDistinctKeys k v d h,
    )
  ]

  pub length-set_item : (k : K) (v : V) (d : Dict K V) → length (set_item k v d) ≤ length d + 1
  unfolding set_item
  length-set_item k v [] = omega arith
  length-set_item k v ((i, w) ∷ d) = ground (arith, length-set_item k v d)

  has_key-eq : (k j : K) (d : Dict K V) → j ≡ k → has_key j d ≡ has_key k d
  has_key-eq k j d h = rw h

  key_eq : (j k : K) (d : Dict K V) → j ≡ k → get j d ≡ get k d
  key_eq j k d h = rw h

  pub get-none_iff : (k : K) (d : Dict K V) → has_key k d ≡ false → get k d ≡ none
  unfolding get has_key
  get-none_iff k [] h = refl
  get-none_iff k ((j, v) ∷ d) h = ground (arith, get-none_iff k d)

  pub get-some_of_has_key :
      (k : K) (d : Dict K V) → has_key k d ≡ true → (v : V) × (get k d ≡ some v)
  unfolding get has_key
  get-some_of_has_key k [] h = cc
  get-some_of_has_key k ((j, v) ∷ d) h = elim (Bool-cases (k == j)) [
    | inl same ↦ rw same (v, refl)
    | inr other ↦ rw other (get-some_of_has_key k d (ground arith))
  ]

  pub has_key-update_item :
      (k j : K) (f : V → V) (d : Dict K V) → has_key j (update_item k f d) ≡ has_key j d
  unfolding has_key update_item
  has_key-update_item k j f [] = refl
  has_key-update_item k j f ((i, v) ∷ d) = ground (arith, has_key-update_item k j f d)

  pub update_item-HasDistinctKeys :
      (k : K) (f : V → V) (d : Dict K V) → HasDistinctKeys d → HasDistinctKeys (update_item k f d)
  unfolding update_item
  update_item-HasDistinctKeys k f [] h = tt
  update_item-HasDistinctKeys k f ((i, v) ∷ d) (a, h) = elim (Bool-cases (k == i)) [
    | inl same ↦ rw same (a, h)
    | inr other ↦ rw other (has_key-update_item k i f d ∙ a, update_item-HasDistinctKeys k f d h)
  ]

  pub has_key-set_default :
      (k j : K) (v : V) (d : Dict K V) → has_key j (set_default k v d) ≡ (j == k || has_key j d)
  unfolding set_default
  has_key-set_default k j v d = elim (Bool-cases (has_key k d)) [
    | inl old ↦ ground (arith, has_key-eq k j d, e.beq_iff j k)
    | inr new ↦ rw new (has_key-set_item k j v d)
  ]

  pub set_default-HasDistinctKeys :
      (k : K) (v : V) (d : Dict K V) → HasDistinctKeys d → HasDistinctKeys (set_default k v d)
  unfolding set_default
  set_default-HasDistinctKeys k v d h = elim (Bool-cases (has_key k d)) [
    | inl old ↦ rw old h
    | inr new ↦ rw new (set_item-HasDistinctKeys k v d h)
  ]

  contains-keys : (k : K) (d : Dict K V) → contains (keys d) k ≡ has_key k d
  unfolding contains has_key
  contains-keys k [] = refl
  contains-keys k ((j, v) ∷ d) = ground (arith, contains-keys k d)

  pub keys-Nodup : (d : Dict K V) → HasDistinctKeys d → Nodup (keys d)
  keys-Nodup [] h = Nodup-nil
  keys-Nodup ((k, v) ∷ d) (a, h) = Nodup-cons.1 (
    λ m. false≢true (sym a ∙ sym (contains-keys k d) ∙ contains_of_mem (keys d) k m),
    keys-Nodup d h,
  )

  pub get-set_default :
      (k j : K) (v : V) (d : Dict K V)
      → get j (set_default k v d) ≡ (if j == k && not (has_key k d) then some v else get j d)
  unfolding set_default
  get-set_default k j v d = elim (Bool-cases (has_key k d)) [
    | inl old ↦ ground arith
    | inr new ↦ ground (arith, get-set_item k j v d)
  ]

  -- A key that is there is not changed by adding another, nor by a default.
  pub get-set_item_new :
      (k j : K) (v : V) (d : Dict K V) {w : V}
      → has_key k d ≡ false
      → get j d ≡ some w
      → get j (set_item k v d) ≡ some w
  get-set_item_new k j v d new h = elim (Bool-cases (j == k)) [
    | inl same ↦
        absurd (ground (arith, get-none_iff k d new, key_eq j k d ((e.beq_iff j k).0 same)))
    | inr other ↦ get-set_item k j v d ∙ rw other h
  ]

  pub get-set_default_keep :
      (k j : K) (v : V) (d : Dict K V) {w : V}
      → get j d ≡ some w
      → get j (set_default k v d) ≡ some w
  unfolding set_default
  get-set_default_keep k j v d h = elim (Bool-cases (has_key k d)) [
    | inl old ↦ rw old h
    | inr new ↦ rw new (get-set_item_new k j v d new h)
  ]
