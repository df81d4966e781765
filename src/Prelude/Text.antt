-- ===== src/Prelude/Text.antt =====
-- Python's `str` as its code points, and the operations on it that the program uses. A list of
-- numbers also holds the lone surrogates that `json.loads` can produce.
use Prim.Native.Nat.{ℕ, zero, suc, ◌+◌, ◌/◌, ◌%◌}
use Prim.Native.Char.{code}
use Prim.Native.String.{String}
use mathlib.Core.Path.{◌≡◌, refl, ap, ◌∙◌}
use mathlib.Core.Logic.{◌↔◌, inl, inr}
use mathlib.Core.Bool.{Bool, true, false, ◌&&◌, ◌||◌}
use mathlib.Core.List.{List, [], ◌∷◌, ◌++◌, append_assoc}
use native.Mathlib.Omega.{arith}
use envoy_modsecurity.Prelude.Tests.{if◌then◌else◌, ltb, leb, Bool-cases}
use envoy_modsecurity.Prelude.Equality.{◌==◌, nat_eq, list_eq, list_beq, list_beq_iff}
use envoy_modsecurity.Prelude.Lists.{contains, contains-append}
use envoy_modsecurity.Prelude.Sorting.{TotalOrder}

abbrev pub Str : Type 0
Str = List ℕ

-- The code points of a literal.
abbrev pub codes : String → Str
codes String.[] = []
codes (String.◌∷◌ c s) = code c ∷ codes s

pub str_beq_iff : (s t : Str) → ((s == t) ≡ true) ↔ (s ≡ t)
str_beq_iff s t = list_beq_iff s t

-- `s <= t`, by code points.
unfoldable pub str_leb : Str → Str → Bool
str_leb [] t = true
str_leb (c ∷ s) [] = false
str_leb (c ∷ s) (d ∷ t) = ltb c d || (c == d && str_leb s t)

str_leb_total : (s t : Str) → str_leb s t ≡ false → str_leb t s ≡ true
unfolding str_leb
str_leb_total [] t h = cc
str_leb_total (c ∷ s) [] h = refl
str_leb_total (c ∷ s) (d ∷ t) h = ground (arith, str_leb_total s t)

str_leb_trans : (s t u : Str) → str_leb s t ≡ true → str_leb t u ≡ true → str_leb s u ≡ true
unfolding str_leb
str_leb_trans [] t u h k = refl
str_leb_trans (c ∷ s) [] u h k = cc
str_leb_trans (c ∷ s) (d ∷ t) [] h k = cc
str_leb_trans (c ∷ s) (d ∷ t) (f ∷ u) h k = ground (arith, str_leb_trans s t u)

pub str_leb_antisym : (s t : Str) → str_leb s t ≡ true → str_leb t s ≡ true → s ≡ t
unfolding str_leb
str_leb_antisym [] [] h k = refl
str_leb_antisym [] (d ∷ t) h k = cc
str_leb_antisym (c ∷ s) [] h k = cc
str_leb_antisym (c ∷ s) (d ∷ t) h k = ground (arith, str_leb_antisym s t)

pub str_leb-TotalOrder : TotalOrder str_leb
str_leb-TotalOrder = record { total = str_leb_total; trans = str_leb_trans }

-- `s.startswith(p)`
unfoldable pub starts_with : Str → Str → Bool
starts_with s [] = true
starts_with [] (d ∷ p) = false
starts_with (c ∷ s) (d ∷ p) = c == d && starts_with s p

pub starts_with-append : (p s : Str) → starts_with (p ++ s) p ≡ true
unfolding starts_with
starts_with-append [] s = refl
starts_with-append (d ∷ p) s = ground (arith, starts_with-append p s)

-- `sep.join(parts)`
unfoldable pub join : Str → List Str → Str
join sep [] = []
join sep (p ∷ []) = p
join sep (p ∷ q ∷ ps) = p ++ sep ++ join sep (q ∷ ps)

-- `s.rsplit(sep, 1)[0]` at a separator of one character: what stands before the last one.
unfoldable pub before_last : ℕ → Str → Str
unfolding contains
before_last sep [] = []
before_last sep (c ∷ s) =
    let rest = before_last sep s in
    if contains s sep then c ∷ rest else if c == sep then [] else c ∷ s

before_last_no_sep : (sep : ℕ) (s : Str) → contains s sep ≡ false → before_last sep s ≡ s
unfolding before_last contains
before_last_no_sep sep [] h = refl
before_last_no_sep sep (c ∷ s) h = ground arith

-- What is joined by the separator is split off again, if the tail has no separator.
pub before_last-append :
    (sep : ℕ) (s t : Str) → contains t sep ≡ false → before_last sep (s ++ sep ∷ t) ≡ s
unfolding before_last contains
before_last-append sep [] t h = ground arith
before_last-append sep (c ∷ s) t h =
    ground (arith, before_last-append sep s t h, contains-append s (sep ∷ t) sep)

-- `str.isspace` of one character: the code points that Python's Unicode tables call white space.
unfoldable pub is_space : ℕ → Bool
is_space c =
    (leb 0x09 c && leb c 0x0d)
    || (leb 0x1c c && leb c 0x20)
    || c == 0x85
    || c == 0xa0
    || c == 0x1680
    || (leb 0x2000 c && leb c 0x200a)
    || c == 0x2028
    || c == 0x2029
    || c == 0x202f
    || c == 0x205f
    || c == 0x3000

-- `str.lower` of one ASCII character.
unfoldable pub ascii_lower : ℕ → ℕ
ascii_lower c = if leb b'A' c && leb c b'Z' then c + 32 else c

-- `str(n)` of a natural number, with more fuel than digits.
decimal_digits : ℕ → ℕ → Str
decimal_digits zero n = []
decimal_digits (suc f) n =
    let rest = decimal_digits f (n / 10) in
    if ltb n 10 then (b'0' + n) ∷ [] else rest ++ (b'0' + n % 10) ∷ []

unfoldable pub decimal : ℕ → Str
unfolding decimal_digits
decimal n = decimal_digits (suc n) n

decimal_tests : (decimal 0 ≡ codes "0") × (decimal 5003 ≡ codes "5003")
unfolding decimal
decimal_tests = (refl, refl)

-- A decimal number begins with a digit.
decimal_digits_other :
    (f n : ℕ) (s : Str) (c : ℕ) (t : Str)
    → ltb c b'0' ≡ true
    → ((decimal_digits (suc f) n ++ s) == (c ∷ t)) ≡ false
unfolding decimal_digits list_beq
decimal_digits_other zero n s c t h = ground arith
decimal_digits_other (suc f) n s c t h = elim (Bool-cases (ltb n 10)) [
  | inl small ↦ ground arith
  | inr large ↦
      let digit = b'0' + n % 10 in
      let last = append_assoc (decimal_digits (suc f) (n / 10)) (digit ∷ []) s in
      rw large (ap (λ u. u == (c ∷ t)) last ∙ decimal_digits_other f (n / 10) (digit ∷ s) c t h)
]

pub decimal_other :
    (n : ℕ) (s : Str) (c : ℕ) (t : Str) → ltb c b'0' ≡ true → ((decimal n ++ s) == (c ∷ t)) ≡ false
unfolding decimal
decimal_other n s c t h = decimal_digits_other n n s c t h
