-- ===== src/Prelude/Split.antt =====
-- `str.strip`, `str.rsplit` at the last separator, `str.split("\n")` with its inverse `join`, and
-- `str.splitlines`.
use Prim.Native.Nat.{ℕ}
use mathlib.Core.Path.{◌≡◌, refl, ap, ◌∙◌}
use mathlib.Core.Logic.{inl, inr}
use mathlib.Core.Bool.{Bool, true, false, ◌&&◌, ◌||◌}
use mathlib.Core.Option.{Option, none, some}
use mathlib.Core.List.{List, [], ◌∷◌, ◌++◌, reverse, reverse-append, reverse-reverse, append_assoc}
use native.Mathlib.Omega.{arith}
use envoy_modsecurity.Prelude.Tests.{if◌then◌else◌, Bool-cases, leb}
use envoy_modsecurity.Prelude.Equality.{◌==◌, nat_eq}
use envoy_modsecurity.Prelude.Lists.{contains, any, all, any-reverse}
use envoy_modsecurity.Prelude.Text.{Str, join}

unfoldable pub drop_while : (ℕ → Bool) → Str → Str
drop_while p [] = []
drop_while p (c ∷ s) = let rest = drop_while p s in if p c then rest else c ∷ s

unfoldable pub take_while : (ℕ → Bool) → Str → Str
take_while p [] = []
take_while p (c ∷ s) = let rest = take_while p s in if p c then c ∷ rest else []

-- What stands before the first character without the property, and the rest.
pub take_while-stop :
    (p : ℕ → Bool) (s t : Str) (stop : ℕ)
    → p stop ≡ false
    → all p s ≡ true
    → take_while p (s ++ stop ∷ t) ≡ s
unfolding take_while all
take_while-stop p [] t stop h k = ground arith
take_while-stop p (c ∷ s) t stop h k = ground (arith, take_while-stop p s t stop h)

pub drop_while-stop :
    (p : ℕ → Bool) (s t : Str) (stop : ℕ)
    → p stop ≡ false
    → all p s ≡ true
    → drop_while p (s ++ stop ∷ t) ≡ stop ∷ t
unfolding drop_while all
drop_while-stop p [] t stop h k = ground arith
drop_while-stop p (c ∷ s) t stop h k = ground (arith, drop_while-stop p s t stop h)

-- A character without the property is not in a text of characters with it.
pub contains-all :
    (p : ℕ → Bool) (s : Str) (stop : ℕ) → p stop ≡ false → all p s ≡ true → contains s stop ≡ false
unfolding contains all
contains-all p [] stop h k = refl
contains-all p (c ∷ s) stop h k = elim (Bool-cases (stop == c)) [
  | inl same ↦ absurd (ground (arith, ap p ((nat_eq.beq_iff stop c).0 same)))
  | inr other ↦ ground (arith, contains-all p s stop h)
]

-- `s.strip(chars)`, with the characters as a test.
unfoldable pub strip : (ℕ → Bool) → Str → Str
unfolding drop_while
strip p s = reverse (drop_while p (reverse (drop_while p s)))

-- `s.rsplit(sep, 1)` where it has two parts; `none` where it has one.
unfoldable pub rsplit_once : ℕ → Str → Option (Str × Str)
rsplit_once sep [] = none
rsplit_once sep (c ∷ s) = elim (rsplit_once sep s) [
  | some (before, after) ↦ some (c ∷ before, after)
  | none ↦ if c == sep then some ([], s) else none
]

-- `s.split(sep, 1)` where it has two parts; `none` where it has one.
unfoldable pub split_once : ℕ → Str → Option (Str × Str)
split_once sep [] = none
split_once sep (c ∷ s) =
    let rest = split_once sep s in
    if c == sep
    then some ([], s)
    else elim rest [ none ↦ none | some (before, after) ↦ some (c ∷ before, after) ]

rsplit_once-none : (sep : ℕ) (s : Str) → contains s sep ≡ false → rsplit_once sep s ≡ none
unfolding rsplit_once contains
rsplit_once-none sep [] h = refl
rsplit_once-none sep (c ∷ s) h = rw (rsplit_once-none sep s (ground arith)) (ground arith)

-- A text that is joined at a separator is split there, if there is none after it.
pub rsplit_once-append :
    (sep : ℕ) (s t : Str) → contains t sep ≡ false → rsplit_once sep (s ++ sep ∷ t) ≡ some (s, t)
unfolding rsplit_once
rsplit_once-append sep [] t h = rw (rsplit_once-none sep t h) (ground arith)
rsplit_once-append sep (c ∷ s) t h = rw (rsplit_once-append sep s t h) refl

drop_while_none : (p : ℕ → Bool) (s : Str) → any p s ≡ false → drop_while p s ≡ s
unfolding drop_while any
drop_while_none p [] h = refl
drop_while_none p (c ∷ s) h = ground arith

-- A text without the characters is as it is.
pub strip_none : (p : ℕ → Bool) (s : Str) → any p s ≡ false → strip p s ≡ s
unfolding strip
strip_none p s h =
    ap (λ t. reverse (drop_while p (reverse t))) (drop_while_none p s h)
    ∙ ap reverse (drop_while_none p (reverse s) (any-reverse p s ∙ h))
    ∙ reverse-reverse s

pub drop_while-cons :
    (p : ℕ → Bool) (c : ℕ) (s : Str) → p c ≡ true → drop_while p (c ∷ s) ≡ drop_while p s
unfolding drop_while
drop_while-cons p c s h = rw h

-- A text between two of the characters is what is between them.
pub strip_between :
    (p : ℕ → Bool) (a b : ℕ) (s : Str)
    → p a ≡ true
    → p b ≡ true
    → any p s ≡ false
    → strip p (a ∷ s ++ b ∷ []) ≡ s
unfolding strip drop_while any
strip_between p a b [] ha hb h = rw (ha, hb) refl
strip_between p a b (c ∷ s) ha hb h =
    let kept : p c ≡ false = ground arith in
    rw (ha, kept)
      (ap (λ t. reverse (drop_while p t)) (reverse-append (c ∷ s) (b ∷ []))
        ∙ ap reverse (drop_while-cons p b (reverse (c ∷ s)) hb)
        ∙ ap reverse (drop_while_none p (reverse (c ∷ s)) (any-reverse p (c ∷ s) ∙ h))
        ∙ reverse-reverse (c ∷ s))

-- `s.split(sep)` at a separator of one character.
unfoldable pub split : ℕ → Str → List Str
split sep [] = [] ∷ []
split sep (c ∷ s) = elim (split sep s) [
  | [] ↦ []
  | line ∷ lines ↦ if c == sep then [] ∷ line ∷ lines else (c ∷ line) ∷ lines
]

split-cons : (sep : ℕ) (s : Str) → (line : Str) × (lines : List Str) × (split sep s ≡ line ∷ lines)
unfolding split
split-cons sep [] = ([], [], refl)
split-cons sep (c ∷ s) =
    let (line, lines, parts) = split-cons sep s in
    elim (Bool-cases (c == sep)) [
      | inl here ↦ ([], line ∷ lines, ground arith)
      | inr other ↦ (c ∷ line, lines, ground arith)
    ]

split_one : (sep : ℕ) (p : Str) → contains p sep ≡ false → split sep p ≡ p ∷ []
unfolding split contains
split_one sep [] h = refl
split_one sep (c ∷ p) h = ground (arith, split_one sep p)

split-append :
    (sep : ℕ) (p s : Str) → contains p sep ≡ false → split sep (p ++ sep ∷ s) ≡ p ∷ split sep s
unfolding split contains
split-append sep [] s h = let (line, lines, parts) = split-cons sep s in ground arith
split-append sep (c ∷ p) s h = ground (arith, split-append sep p s)

pub join-cons :
    (sep : ℕ) (line next : Str) (lines : List Str)
    → join (sep ∷ []) (line ∷ next ∷ lines) ≡ line ++ sep ∷ join (sep ∷ []) (next ∷ lines)
unfolding join
join-cons sep line next lines = append_assoc line (sep ∷ []) (join (sep ∷ []) (next ∷ lines))

-- Lines that are joined are split again, if none has the separator.
pub split-join :
    (sep : ℕ) (line : Str) (lines : List Str)
    → any (λ l. contains l sep) (line ∷ lines) ≡ false
    → split sep (join (sep ∷ []) (line ∷ lines)) ≡ line ∷ lines
unfolding join any
split-join sep line [] h = split_one sep line (ground arith)
split-join sep line (next ∷ lines) h =
    ap (split sep) (join-cons sep line next lines)
    ∙ split-append sep line (join (sep ∷ []) (next ∷ lines)) (ground arith)
    ∙ ap (◌∷◌ line) (split-join sep next lines (ground arith))

-- The characters at which `s.splitlines()` splits.
unfoldable pub is_line_break : ℕ → Bool
is_line_break c =
    (leb 0x0a c && leb c 0x0d)
    || (leb 0x1c c && leb c 0x1e)
    || c == 0x85
    || c == 0x2028
    || c == 0x2029

-- A carriage return and the newline after it split once.
abbrev splits_before : ℕ → Str → Bool
splits_before c [] = false
splits_before c (d ∷ s) = c == 0x0d && d == 0x0a

abbrev pub prepend : ℕ → List Str → List Str
prepend c [] = (c ∷ []) ∷ []
prepend c (line ∷ lines) = (c ∷ line) ∷ lines

-- `s.splitlines()`
unfoldable pub splitlines : Str → List Str
unfolding is_line_break
splitlines [] = []
splitlines (c ∷ s) =
    let lines = splitlines s in
    if splits_before c s then lines else if is_line_break c then [] ∷ lines else prepend c lines
