-- ===== src/Prelude/Replace.antt =====
-- `s.replace(old, new)` for a text `old` that is not empty: its occurrences from the left, none of
-- which overlaps the one before.
use Prim.Native.Nat.{ℕ, zero, suc, ◌-◌}
use mathlib.Core.Path.{◌≡◌, refl, ap, ◌∙◌, sym}
use mathlib.Core.Bool.{Bool, false, ◌||◌}
use mathlib.Core.List.{List, [], ◌∷◌, ◌++◌}
use native.Mathlib.Omega.{arith}
use envoy_modsecurity.Prelude.Tests.{if◌then◌else◌}
use envoy_modsecurity.Prelude.Equality.{nat_eq}
use envoy_modsecurity.Prelude.Lists.{length, contains, any, is_empty}
use envoy_modsecurity.Prelude.Split.{join-cons}
use envoy_modsecurity.Prelude.Text.{Str, codes, starts_with, join}

-- `skip` characters belong to the occurrence that was replaced last.
unfoldable pub replace_from : (old new : Str) (skip : ℕ) → Str → Str
replace_from old new skip [] = []
replace_from old new (suc skip) (c ∷ s) = replace_from old new skip s
replace_from old new zero (c ∷ s) =
    let replaced = replace_from old new (length old - 1) s in
    let kept = replace_from old new 0 s in
    if starts_with (c ∷ s) old then new ++ replaced else c ∷ kept

unfoldable pub replace : (old new : Str) → Str → Str
unfolding replace_from starts_with
replace old new s = replace_from old new 0 s

-- `old in s`
unfoldable pub has_text : (old : Str) → Str → Bool
unfolding starts_with
has_text old [] = starts_with [] old
has_text old (c ∷ s) = starts_with (c ∷ s) old || has_text old s

-- A character that does not occur in a text ends every match of it.
starts_with-stop :
    (old s t : Str) (stop : ℕ)
    → contains old stop ≡ false
    → starts_with (s ++ stop ∷ t) old ≡ starts_with s old
unfolding starts_with contains
starts_with-stop [] [] t stop h = refl
starts_with-stop [] (c ∷ s) t stop h = refl
starts_with-stop (d ∷ old) [] t stop h = ground arith
starts_with-stop (d ∷ old) (c ∷ s) t stop h = ground (arith, starts_with-stop old s t stop)

-- What stands before such a character, and has no occurrence, is kept.
pub replace_from-append :
    (old new s t : Str) (stop : ℕ)
    → contains old stop ≡ false
    → has_text old s ≡ false
    → replace_from old new 0 (s ++ stop ∷ t) ≡ s ++ replace_from old new 0 (stop ∷ t)
unfolding replace_from has_text
replace_from-append old new [] t stop h k = refl
replace_from-append old new (c ∷ s) t stop h k =
    let other : starts_with (c ∷ s ++ stop ∷ t) old ≡ false =
      ground (arith, starts_with-stop old (c ∷ s) t stop h) in
    rw other (ap (◌∷◌ c) (replace_from-append old new s t stop h (ground arith)))

break_kept :
    (old new t : Str)
    → contains old 0x0a ≡ false
    → is_empty old ≡ false
    → replace_from old new 0 (0x0a ∷ t) ≡ 0x0a ∷ replace_from old new 0 t
unfolding replace_from starts_with contains
break_kept [] new t h n = cc
break_kept (d ∷ old) new t h n = ground arith

-- A line break ends every match of a text without one, and is no match by itself.
replace_from-line :
    (old new s t : Str)
    → contains old 0x0a ≡ false
    → is_empty old ≡ false
    → has_text old s ≡ false
    → replace_from old new 0 (s ++ 0x0a ∷ t) ≡ s ++ 0x0a ∷ replace_from old new 0 t
replace_from-line old new s t h n k =
    replace_from-append old new s t 0x0a h k ∙ ap (λ u. s ++ u) (break_kept old new t h n)

-- The lines after a first one.
after_line :
    (old new l m m' : Str) (ms ms' : List Str)
    → contains old 0x0a ≡ false
    → is_empty old ≡ false
    → has_text old l ≡ false
    → replace old new (join (codes "\n") (m ∷ ms)) ≡ join (codes "\n") (m' ∷ ms')
    → replace old new (join (codes "\n") (l ∷ m ∷ ms)) ≡ join (codes "\n") (l ∷ m' ∷ ms')
unfolding replace
after_line old new l m m' ms ms' h n k r =
    ap (replace_from old new 0) (join-cons 0x0a l m ms)
    ∙ replace_from-line old new l (join (codes "\n") (m ∷ ms)) h n k
    ∙ ap (λ u. l ++ 0x0a ∷ u) r
    ∙ sym (join-cons 0x0a l m' ms')

-- Lines without an occurrence are kept, whatever becomes of the lines after them.
pub replace-lines :
    (old new : Str) (lines : List Str) (line line' : Str) (rest rest' : List Str)
    → contains old 0x0a ≡ false
    → is_empty old ≡ false
    → any (has_text old) lines ≡ false
    → replace old new (join (codes "\n") (line ∷ rest)) ≡ join (codes "\n") (line' ∷ rest')
    → replace old new (join (codes "\n") (lines ++ line ∷ rest))
      ≡ join (codes "\n") (lines ++ line' ∷ rest')
unfolding any
replace-lines old new [] line line' rest rest' h n k r = r
replace-lines old new (l ∷ []) line line' rest rest' h n k r =
    after_line old new l line line' rest rest' h n (ground arith) r
replace-lines old new (l ∷ m ∷ ls) line line' rest rest' h n k r =
    after_line old new l m m (ls ++ line ∷ rest) (ls ++ line' ∷ rest') h n (ground arith)
      (replace-lines old new (m ∷ ls) line line' rest rest' h n (ground arith) r)

-- A text of whole lines without an occurrence is kept.
pub replace-kept :
    (old new : Str) (lines : List Str)
    → contains old 0x0a ≡ false
    → is_empty old ≡ false
    → any (has_text old) lines ≡ false
    → replace old new (join (codes "\n") (lines ++ [] ∷ [])) ≡ join (codes "\n") (lines ++ [] ∷ [])
unfolding replace replace_from join
replace-kept old new lines h n k = replace-lines old new lines [] [] [] [] h n k refl
