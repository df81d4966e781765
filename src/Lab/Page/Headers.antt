-- ===== src/Lab/Page/Headers.antt =====
-- The headers that `parseHeaders` of the page of tools/owasp-crs-lab.py reads back.
use envoy_modsecurity.Prelude.{
  ℕ, ◌≡◌, refl, sym, ap, ◌∙◌, subst, Bool, true, false, ◌||◌, List, [], ◌∷◌, ◌++◌, map, some, arith,
  ◌==◌, nat_eq, list_eq, Bool-cases, inl, inr,
}
use mathlib.Core.List.{reverse, reverse-cons, append_assoc, append-nil}
use envoy_modsecurity.Prelude.Lists.{contains, contains-append, any, is_empty}
use envoy_modsecurity.Prelude.Dicts.{Dict, has_key, set_item, HasDistinctKeys}
use envoy_modsecurity.Prelude.Text.{Str, codes, join, str_beq_iff}
use envoy_modsecurity.Prelude.Split.{strip, split, split-join, drop_while, drop_while-cons}
use envoy_modsecurity.Prelude.Split.{split_once}
use envoy_modsecurity.Report.Versions.Pins.{split_once-append}
use envoy_modsecurity.Lab.Page.{
  is_js_space, trim, without_return, without_returns, assign, headers, parse_lines, parse_headers,
}

-- A header on a line of its own.
abbrev pub header_line : Str × Str → Str
header_line (name, value) = name ++ (codes ": " ++ value)

abbrev pub has_break : Str → Bool
has_break s = contains s 0x0a || contains s 0x0d

-- What a name and a value have to be to be read back: on one line, with no white space around them,
-- and the name there, with no colon, and not the one property that takes no text.
pub record IsField (name value : Str) : Type 0 where
  pub named : is_empty name ≡ false
  pub no_colon : contains name b':' ≡ false
  pub name_line : has_break name ≡ false
  pub value_line : has_break value ≡ false
  pub name_trimmed : trim name ≡ name
  pub value_trimmed : trim value ≡ value
  pub plain : (name == codes "__proto__") ≡ false

abbrev pub AreFields : Dict Str Str → Type 0
AreFields [] = Unit
AreFields ((name, value) ∷ fields) = IsField name value × AreFields fields

contains-reverse : (s : Str) (c : ℕ) → contains (reverse s) c ≡ contains s c
unfolding contains
contains-reverse [] c = refl
contains-reverse (x ∷ s) c =
    ap (λ l. contains l c) (reverse-cons x s)
    ∙ contains-append (reverse s) (x ∷ []) c
    ∙ ground (arith, contains-reverse s c)

contains-drop_while :
    (p : ℕ → Bool) (s : Str) (c : ℕ)
    → p c ≡ false
    → contains s c ≡ true
    → contains (drop_while p s) c ≡ true
unfolding drop_while contains
contains-drop_while p [] c n h = cc
contains-drop_while p (x ∷ s) c n h = elim (Bool-cases (c == x)) [
  | inl same ↦
      let kept : p x ≡ false = subst (λ y. p y ≡ false) ((nat_eq.beq_iff c x).0 same) n in
      ground arith
  | inr other ↦ ground (arith, contains-drop_while p s c n)
]

there : (s : Str) (c : ℕ) → contains s c ≡ true → is_empty s ≡ false
unfolding contains
there [] c h = cc
there (x ∷ s) c h = refl

not_blank :
    (s : Str) (c : ℕ) → is_js_space c ≡ false → contains s c ≡ true → is_empty (trim s) ≡ false
unfolding strip
not_blank s c n h =
    let once = contains-drop_while is_js_space s c n h in
    let twice =
      contains-drop_while is_js_space (reverse (drop_while is_js_space s)) c n
        (contains-reverse (drop_while is_js_space s) c ∙ once) in
    there (trim s) c
      (contains-reverse (drop_while is_js_space (reverse (drop_while is_js_space s))) c ∙ twice)

trim_space : (s : Str) → trim (b' ' ∷ s) ≡ trim s
unfolding strip is_js_space
trim_space s =
    ap (λ t. reverse (drop_while is_js_space (reverse t))) (drop_while-cons is_js_space b' ' s refl)

set_item_new :
    (name value : Str) (d : Dict Str Str)
    → has_key name d ≡ false
    → set_item name value d ≡ d ++ (name, value) ∷ []
unfolding set_item has_key
set_item_new name value [] h = refl
set_item_new name value ((k, v) ∷ d) h = ground (arith, set_item_new name value d)

has_key-append :
    (name : Str) (d e : Dict Str Str) → has_key name (d ++ e) ≡ (has_key name d || has_key name e)
unfolding has_key
has_key-append name [] e = refl
has_key-append name ((k, v) ∷ d) e = ground (arith, has_key-append name d e)

new_key :
    (d e : Dict Str Str) (name value : Str)
    → HasDistinctKeys (d ++ (name, value) ∷ e)
    → has_key name d ≡ false
unfolding has_key
new_key [] e name value h = refl
new_key ((k, v) ∷ d) e name value h = ground (
  arith,
  str_beq_iff name k,
  str_beq_iff k name,
  has_key-append k d ((name, value) ∷ e),
  new_key d e name value,
)

colon_plain : is_js_space b':' ≡ false
unfolding is_js_space
colon_plain = refl

header_line_split :
    (name value : Str)
    → IsField name value
    → split_once b':' (header_line (name, value)) ≡ some (name, b' ' ∷ value)
header_line_split name value f = split_once-append b':' name (b' ' ∷ value) f.no_colon

header_line_there : (name value : Str) → is_empty (trim (header_line (name, value))) ≡ false
unfolding contains
header_line_there name value =
    not_blank (header_line (name, value)) b':' colon_plain
      (ground (arith, contains-append name (b':' ∷ b' ' ∷ value) b':'))

line_read :
    (line name value : Str) (lines : List Str) (so_far : Dict Str Str)
    → is_empty (trim line) ≡ false
    → split_once b':' line ≡ some (name, value)
    → is_empty name ≡ false
    → parse_lines (line ∷ lines) so_far ≡ parse_lines lines (assign (trim name) (trim value) so_far)
unfolding parse_lines
line_read line name value lines so_far h s n = ground arith

assigned :
    (name value : Str) (so_far : Dict Str Str)
    → IsField name value
    → has_key name so_far ≡ false
    → assign (trim name) (trim (b' ' ∷ value)) so_far ≡ so_far ++ (name, value) ∷ []
assigned name value so_far f new =
    ap (λ n. assign n (trim (b' ' ∷ value)) so_far) f.name_trimmed
    ∙ ap (λ v. assign name v so_far) (trim_space value ∙ f.value_trimmed)
    ∙ rw f.plain (set_item_new name value so_far new)

parse_one :
    (name value : Str) (lines : List Str) (so_far : Dict Str Str)
    → IsField name value
    → has_key name so_far ≡ false
    → parse_lines (header_line (name, value) ∷ lines) so_far
      ≡ parse_lines lines (so_far ++ (name, value) ∷ [])
parse_one name value lines so_far f new =
    line_read (header_line (name, value)) name (b' ' ∷ value) lines so_far
      (header_line_there name value) (header_line_split name value f) f.named
    ∙ ap (parse_lines lines) (assigned name value so_far f new)

parse_lines-fields :
    (fields so_far : Dict Str Str)
    → AreFields fields
    → HasDistinctKeys (so_far ++ fields)
    → parse_lines (map header_line fields) so_far ≡ headers (so_far ++ fields)
unfolding parse_lines
parse_lines-fields [] so_far f d = ap headers (sym (append-nil so_far))
parse_lines-fields ((name, value) ∷ fields) so_far f d =
    let assoc = append_assoc so_far ((name, value) ∷ []) fields in
    parse_one name value (map header_line fields) so_far f.0 (new_key so_far fields name value d)
    ∙ parse_lines-fields fields (so_far ++ (name, value) ∷ []) f.1
        (subst HasDistinctKeys (sym assoc) d)
    ∙ ap headers assoc

without_return_none : (s : Str) → contains s 0x0d ≡ false → without_return s ≡ s
unfolding without_return contains
without_return_none [] h = refl
without_return_none (c ∷ s) h = ground (arith, without_return_none s)

without_returns_none :
    (lines : List Str) → any (λ l. contains l 0x0d) lines ≡ false → without_returns lines ≡ lines
unfolding without_returns any
without_returns_none [] h = refl
without_returns_none (line ∷ []) h = refl
without_returns_none (line ∷ next ∷ lines) h =
    rw (without_return_none line (ground arith))
      (ap (◌∷◌ line) (without_returns_none (next ∷ lines) (ground arith)))

header_line-contains :
    (name value : Str) (c : ℕ)
    → contains name c ≡ false
    → contains value c ≡ false
    → contains (codes ": ") c ≡ false
    → contains (header_line (name, value)) c ≡ false
header_line-contains name value c n v s =
    ground
      (arith, contains-append name (codes ": " ++ value) c, contains-append (codes ": ") value c)

header_lines-any :
    (fields : Dict Str Str)
    → AreFields fields
    → (any (λ l. contains l 0x0a) (map header_line fields) ≡ false)
      × (any (λ l. contains l 0x0d) (map header_line fields) ≡ false)
unfolding any contains
header_lines-any [] f = (refl, refl)
header_lines-any ((name, value) ∷ fields) f =
    let (feeds, returns) = header_lines-any fields f.1 in
    let field = f.0 in
    (
      ground (arith, header_line-contains name value 0x0a, field.name_line, field.value_line),
      ground (arith, header_line-contains name value 0x0d, field.name_line, field.value_line),
    )

-- Headers with distinct names, each written as a line of its name, a colon, a space and its
-- value, are read back by the page as they were, if names and values are on one line with no
-- white space around them and a name is there, has no colon and is not `__proto__`.
pub parse_headers-join :
    (fields : Dict Str Str)
    → AreFields fields
    → HasDistinctKeys fields
    → parse_headers (join (codes "\n") (map header_line fields)) ≡ headers fields
unfolding parse_headers join split strip drop_while
parse_headers-join [] f d = refl
parse_headers-join ((name, value) ∷ fields) f d =
    let (feeds, returns) = header_lines-any ((name, value) ∷ fields) f in
    ap (λ ls. parse_lines (without_returns ls) [])
      (split-join 0x0a (header_line (name, value)) (map header_line fields) feeds)
    ∙ ap (λ ls. parse_lines ls [])
        (without_returns_none (map header_line ((name, value) ∷ fields)) returns)
    ∙ parse_lines-fields ((name, value) ∷ fields) [] f d
