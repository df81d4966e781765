-- ===== src/Lab/Concurrent/Own.antt =====
-- The entries of a call in the log, and that a search for the call's id finds only these.
use envoy_modsecurity.Prelude.{
  ℕ, ◌≡◌, ◌∙◌, sym, refl, ap, Bool, true, false, List, [], ◌∷◌, ◌++◌, Option, none, some, Mem,
  arith, if◌then◌else◌, ◌==◌, nat_eq, list_eq, Bool-cases, Option-cases, inl, inr, beq_refl,
}
use mathlib.Core.List.{reverse, mem-cons, Mem-prop, not-mem-nil, mem-reverse}
use mathlib.Core.Logic.Or
use envoy_modsecurity.Prelude.Dicts.{Dict, get}
use envoy_modsecurity.Prelude.Text.{Str, codes}
use envoy_modsecurity.Prelude.Json.{Json, text, object, Fields, items}
use envoy_modsecurity.Lab.Access.{find_entry, entry_for, entry_for-id}
use envoy_modsecurity.Lab.Concurrent.{Line, logged, foreign, line_json, read_lines}

-- The entries that Envoy has written for the request of call i.
unfoldable pub own : ℕ → List Line → List (Dict Str Json)
own i [] = []
own i (logged k fs ∷ log) = let rest = own i log in if i == k then items fs ∷ rest else rest
own i (foreign j ∷ log) = own i log

-- Calls draw different ids.
abbrev pub AreDistinct : (ℕ → Str) → Type 0
AreDistinct id = (i k : ℕ) → id i ≡ id k → i ≡ k

module _ (id : ℕ → Str) where
  -- An entry has its call's id, any other line no call's.
  abbrev pub IsLabelled : Line → Type 0
  IsLabelled (logged k fs) = get (codes "request_id") (items fs) ≡ some (text (id k))
  IsLabelled (foreign j) = (k : ℕ) → entry_for (id k) j ≡ none

  abbrev pub AreLabelled : List Line → Type 0
  AreLabelled [] = Unit
  AreLabelled (line ∷ log) = IsLabelled line × AreLabelled log

  pub AreLabelled-append :
      (log : List Line) (line : Line)
      → AreLabelled log
      → IsLabelled line
      → AreLabelled (log ++ line ∷ [])
  AreLabelled-append [] line h l = (l, tt)
  AreLabelled-append (first ∷ log) line h l = (h.0, AreLabelled-append log line h.1 l)

  pub AreLabelled-prefix : (seen rest : List Line) → AreLabelled (seen ++ rest) → AreLabelled seen
  AreLabelled-prefix [] rest h = tt
  AreLabelled-prefix (first ∷ seen) rest h = (h.0, AreLabelled-prefix seen rest h.1)

pub own-append : (i : ℕ) (log more : List Line) → own i (log ++ more) ≡ own i log ++ own i more
unfolding own
own-append i [] more = refl
own-append i (logged k fs ∷ log) more = ground (arith, own-append i log more)
own-append i (foreign j ∷ log) more = own-append i log more

find_entry-mem :
    (request_id : Str) (lines : List (Option Json)) {entry : Dict Str Json}
    → find_entry request_id lines ≡ some entry
    → (line : Option Json) × Mem line lines × (entry_for request_id line ≡ some entry)
unfolding find_entry
find_entry-mem request_id [] h = cc
find_entry-mem request_id (line ∷ lines) h = elim (Option-cases (entry_for request_id line)) [
  | inl other ↦
      let (l, m, e) = find_entry-mem request_id lines (ground arith) in
      (l, mem-cons.1 (Or.inr m), e)
  | inr (entry, found) ↦ (line, mem-cons.1 (Or.inl refl), ground arith)
]

text_injective : (a b : Str) → ◌≡◌ {A = Option Json} (some (text a)) (some (text b)) → a ≡ b
text_injective a b h = cc

entry_of :
    (request_id : Str) (fs : Fields) {entry : Dict Str Json}
    → entry_for request_id (some (object fs)) ≡ some entry
    → items fs ≡ entry
entry_of request_id fs h = ground arith

module _ {id : ℕ → Str} (distinct : AreDistinct id) (i : ℕ) (entry : Dict Str Json) where
  own_later :
      (line : Line) (log : List Line) → Mem entry (own i log) → Mem entry (own i (line ∷ log))
  unfolding own
  own_later (foreign j) log m = m
  own_later (logged k fs) log m = elim (Bool-cases (i == k)) [
    | inl same ↦ rw same (mem-cons.1 (Or.inr m))
    | inr other ↦ rw other m
  ]

  head_own :
      (line : Line) (log : List Line)
      → IsLabelled id line
      → entry_for (id i) (line_json line) ≡ some entry
      → Mem entry (own i (line ∷ log))
  unfolding own
  head_own (foreign j) log labelled h = absurd (ground (arith, labelled i))
  head_own (logged k fs) log labelled h =
      let same : items fs ≡ entry = entry_of (id i) fs h in
      let owner : i ≡ k = distinct i k (
        text_injective (id i) (id k) (
          sym (entry_for-id (id i) (some (object fs)) h)
          ∙ ap (get (codes "request_id")) (sym same)
          ∙ labelled)) in
      rw (owner, beq_refl k) (mem-cons.1 (Or.inl (sym same)))

  read_own :
      (seen rest : List Line) (torn : Bool) (line : Option Json)
      → AreLabelled id seen
      → Mem line (read_lines seen torn)
      → entry_for (id i) line ≡ some entry
      → Mem entry (own i (seen ++ rest))
  unfolding own
  read_own [] rest true line labelled m h =
      Or.elim Mem-prop (mem-cons.0 m) (λ e. absurd (ground arith)) (λ n. absurd (not-mem-nil n))
  read_own [] rest false line labelled m h = absurd (not-mem-nil m)
  read_own (first ∷ seen) rest torn line labelled m h =
      Or.elim Mem-prop (mem-cons.0 m)
        (λ e. head_own first (seen ++ rest) labelled.0 (ap (entry_for (id i)) (sym e) ∙ h))
        (λ n. own_later first (seen ++ rest) (read_own seen rest torn line labelled.1 n h))

  -- A search for the id of a call in what is read of a labelled log finds an entry of that call.
  pub find_entry-own :
      (seen rest : List Line) (torn : Bool)
      → AreLabelled id seen
      → find_entry (id i) (reverse (read_lines seen torn)) ≡ some entry
      → Mem entry (own i (seen ++ rest))
  find_entry-own seen rest torn labelled h =
      let (line, m, found) = find_entry-mem (id i) (reverse (read_lines seen torn)) h in
      read_own seen rest torn line labelled (mem-reverse.0 m) found
