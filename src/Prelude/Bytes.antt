-- ===== src/Prelude/Bytes.antt =====
-- `str.encode("utf-8")`: strict, so a lone surrogate is an error.
use Prim.Native.Nat.{ℕ, ◌+◌, ◌/◌, ◌%◌}
use mathlib.Core.Path.{◌≡◌, refl}
use mathlib.Core.Bool.{Bool, ◌&&◌}
use mathlib.Core.Option.{Option, none, some}
use mathlib.Core.List.{List, [], ◌∷◌, ◌++◌}
use envoy_modsecurity.Prelude.Tests.{if◌then◌else◌, ltb, leb}
use envoy_modsecurity.Prelude.Lists.{any}
use envoy_modsecurity.Prelude.Text.{Str, codes}

unfoldable pub is_surrogate : ℕ → Bool
is_surrogate c = leb 0xd800 c && leb c 0xdfff

-- The bytes of one code point that is no surrogate.
unfoldable pub utf8_bytes : ℕ → List ℕ
utf8_bytes c =
    if ltb c 0x80
    then c ∷ []
    else if ltb c 0x800
    then (0xc0 + c / 64) ∷ (0x80 + c % 64) ∷ []
    else if ltb c 0x10000
    then (0xe0 + c / 4096) ∷ (0x80 + c / 64 % 64) ∷ (0x80 + c % 64) ∷ []
    else (0xf0 + c / 262144) ∷ (0x80 + c / 4096 % 64) ∷ (0x80 + c / 64 % 64) ∷ (0x80 + c % 64) ∷ []

unfoldable pub utf8 : Str → List ℕ
utf8 [] = []
utf8 (c ∷ s) = utf8_bytes c ++ utf8 s

-- `none` is UnicodeEncodeError.
unfoldable pub encode_utf8 : Str → Option (List ℕ)
unfolding any is_surrogate
encode_utf8 s = if any is_surrogate s then none else some (utf8 s)

encode_tests :
    (encode_utf8 (codes "aé€") ≡ some (0x61 ∷ 0xc3 ∷ 0xa9 ∷ 0xe2 ∷ 0x82 ∷ 0xac ∷ []))
    × (encode_utf8 (0xd800 ∷ []) ≡ none)
unfolding encode_utf8 utf8 utf8_bytes
encode_tests = (refl, refl)
