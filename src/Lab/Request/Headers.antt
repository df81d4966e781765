-- ===== src/Lab/Request/Headers.antt =====
-- What `validate_request` (tools/owasp-crs-lab.py) has established of the headers it returns.
use envoy_modsecurity.Prelude.{
  some, ℕ, ◌+◌, ◌≤◌, ◌≡◌, refl, sym, ◌∙◌, inl, inr, true, false, ◌&&◌, [], ◌∷◌, map, Mem, arith,
  ltb, leb, ◌==◌, nat_eq, list_eq, Bool-cases,
}
use mathlib.Core.Bool.{false≢true}
use envoy_modsecurity.Prelude.Lists.{length, all, contains, contains_of_mem}
use envoy_modsecurity.Prelude.Dicts.{
  Dict, get, set_item, HasDistinctKeys, set_item-HasDistinctKeys, length-set_item,
}
use envoy_modsecurity.Prelude.Text.{Str, ascii_lower, str_beq_iff}
use envoy_modsecurity.Prelude.Json.{Json, text}
use envoy_modsecurity.Lab.Errors.{ok, >>=-eq-ok}
use envoy_modsecurity.Lab.Request.{
  is_token_char, is_header_name, has_line_break, disallowed_request_headers, validate_header,
  validate_headers,
}

-- A header that cannot end the header block, and that the lab does not set itself.
pub record IsSafeHeader (name value : Str) : Type 0 where
  pub token : is_header_name name ≡ true
  pub lower_case : map ascii_lower name ≡ name
  pub not_managed : ¬ Mem name disallowed_request_headers
  pub no_return : ¬ Mem 0x0d value
  pub no_newline : ¬ Mem 0x0a value
  pub short : length value ≤ 8192

abbrev pub AreSafeHeaders : Dict Str Str → Type 0
AreSafeHeaders [] = Unit
AreSafeHeaders ((name, value) ∷ d) = IsSafeHeader name value × AreSafeHeaders d

lower-token : (c : ℕ) → is_token_char c ≡ true → is_token_char (ascii_lower c) ≡ true
unfolding ascii_lower is_token_char
lower-token c h = elim (Bool-cases (leb b'A' c && leb c b'Z')) [
  | inl upper ↦ rw upper (ground arith)
  | inr other ↦ rw other h
]

all-lower-token :
    (s : Str) → all is_token_char s ≡ true → all is_token_char (map ascii_lower s) ≡ true
unfolding all
all-lower-token [] h = refl
all-lower-token (c ∷ s) h = ground (arith, lower-token c, all-lower-token s)

is_header_name-lower :
    (s : Str) → is_header_name s ≡ true → is_header_name (map ascii_lower s) ≡ true
unfolding is_header_name
is_header_name-lower [] h = cc
is_header_name-lower (c ∷ s) h = all-lower-token (c ∷ s) h

lower_twice : (c : ℕ) → ascii_lower (ascii_lower c) ≡ ascii_lower c
unfolding ascii_lower
lower_twice c = ground arith

map-lower_twice : (s : Str) → map ascii_lower (map ascii_lower s) ≡ map ascii_lower s
map-lower_twice [] = refl
map-lower_twice (c ∷ s) = rw (lower_twice c, map-lower_twice s)

not-mem_of_contains : (xs : Str) (c : ℕ) → contains xs c ≡ false → ¬ Mem c xs
not-mem_of_contains xs c h m = false≢true (sym h ∙ contains_of_mem xs c m)

-- The tests that a header has passed.
pub record Passed (raw_name : Str) (raw_value : Json) (h : Str × Str) : Type 0 where
  pub is_text : raw_value ≡ text h.1
  pub named : is_header_name raw_name ≡ true
  pub lowered : h.0 ≡ map ascii_lower raw_name
  pub unbroken : has_line_break h.1 ≡ false
  pub unmanaged : contains disallowed_request_headers (map ascii_lower raw_name) ≡ false
  pub bounded : ltb 8192 (length h.1) ≡ false

validate_header-Passed :
    (raw_name : Str) (raw_value : Json) {h : Str × Str}
    → validate_header raw_name raw_value ≡ ok h
    → Passed raw_name raw_value h
unfolding validate_header
validate_header-Passed raw_name (text value) e = ground arith
validate_header-Passed raw_name v e = absurd (ground arith)

unbroken_inv :
    (s : Str) → has_line_break s ≡ false → (contains s 0x0d ≡ false) × (contains s 0x0a ≡ false)
unfolding has_line_break
unbroken_inv s h = ground arith

validate_header-IsSafeHeader :
    (raw_name : Str) (raw_value : Json) {h : Str × Str}
    → validate_header raw_name raw_value ≡ ok h
    → IsSafeHeader h.0 h.1
validate_header-IsSafeHeader raw_name raw_value {h} e =
    let p = validate_header-Passed raw_name raw_value e in
    let (no_return, no_newline) = unbroken_inv h.1 p.unbroken in
    record {
      token = rw p.lowered (is_header_name-lower raw_name p.named);
      lower_case = rw p.lowered (map-lower_twice raw_name);
      not_managed = λ m. false≢true (
          sym p.unmanaged
          ∙ contains_of_mem disallowed_request_headers (map ascii_lower raw_name)
              (rw p.lowered at m));
      no_return = not-mem_of_contains h.1 0x0d no_return;
      no_newline = not-mem_of_contains h.1 0x0a no_newline;
      short = let bounded = p.bounded in ground arith;
    }

set_item-AreSafeHeaders :
    (name value : Str) (d : Dict Str Str)
    → IsSafeHeader name value
    → AreSafeHeaders d
    → AreSafeHeaders (set_item name value d)
unfolding set_item
set_item-AreSafeHeaders name value [] s h = (s, tt)
set_item-AreSafeHeaders name value ((k, v) ∷ d) s (t, h) = elim (Bool-cases (name == k)) [
  | inl same ↦ rw same (rw (← (str_beq_iff name k).0 same) s, h)
  | inr other ↦ rw other (t, set_item-AreSafeHeaders name value d s h)
]

-- The headers that pass the checks are safe, no name is there twice, and there are no more of
-- them than the payload has.
pub validate_headers_lem :
    (raw : Dict Str Json) (headers : Dict Str Str) {out : Dict Str Str}
    → validate_headers raw headers ≡ ok out
    → AreSafeHeaders headers
    → HasDistinctKeys headers
    → AreSafeHeaders out × HasDistinctKeys out × (length out ≤ length headers + length raw)
unfolding validate_headers
validate_headers_lem [] headers {out} e s d =
    let same : headers ≡ out = cc in rw (← same) (s, d, omega arith)
validate_headers_lem ((raw_name, raw_value) ∷ rest) headers e s d =
    let (h, checked, more) = >>=-eq-ok (validate_header raw_name raw_value) _ e in
    let (safe, distinct, few) =
      validate_headers_lem rest (set_item h.0 h.1 headers) more
        (set_item-AreSafeHeaders h.0 h.1 headers
          (validate_header-IsSafeHeader raw_name raw_value checked) s)
        (set_item-HasDistinctKeys h.0 h.1 headers d) in
    (safe, distinct, omega (arith, few, length-set_item h.0 h.1 headers))

-- A header that is found is a safe one.
pub get-IsSafeHeader :
    (d : Dict Str Str) (name value : Str)
    → AreSafeHeaders d
    → get name d ≡ some value
    → IsSafeHeader name value
unfolding get
get-IsSafeHeader [] name value h e = cc
get-IsSafeHeader ((k, v) ∷ d) name value (s, h) e = elim (Bool-cases (name == k)) [
  | inl same ↦
      let is_value : v ≡ value = ground arith in rw ((str_beq_iff name k).0 same, ← is_value) s
  | inr other ↦ get-IsSafeHeader d name value h (ground arith)
]
