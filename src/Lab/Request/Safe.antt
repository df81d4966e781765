-- ===== src/Lab/Request/Safe.antt =====
-- What `validate_request` (tools/owasp-crs-lab.py) has established of the request it returns.
use envoy_modsecurity.Prelude.{
  ℕ, ◌≤◌, ◌≡◌, refl, sym, ◌∙◌, subst, Bool, true, false, List, [], Mem, some, arith, inl, inr,
  nat_eq, list_eq, Bool-cases,
}
use mathlib.Core.Bool.{false≢true}
use envoy_modsecurity.Prelude.Lists.{length, contains, contains_of_mem, mem_of_contains}
use envoy_modsecurity.Prelude.Dicts.{Dict, HasDistinctKeys}
use envoy_modsecurity.Prelude.Text.{Str, codes, starts_with}
use envoy_modsecurity.Prelude.Json.{Json, text}
use envoy_modsecurity.Lab.Errors.{
  ok, user_input, bad_method, not_an_object, >>=-eq-ok, or_raise-eq-ok, or_raise, ok-injective,
}
use envoy_modsecurity.Lab.Request.{
  Request, allowed_methods, max_request_body_bytes, is_path, as_object, text_if, payload_field,
  method_field, path_field, headers_field, body_field, validate_headers, validate_request,
}
use envoy_modsecurity.Lab.Request.Headers.{AreSafeHeaders, validate_headers_lem}

-- An origin-form path of this host, on one line.
pub record IsLocalPath (path : Str) : Type 0 where
  pub rooted : starts_with path (codes "/") ≡ true
  pub no_authority : starts_with path (codes "//") ≡ false
  pub short : length path ≤ 4096
  pub no_return : ¬ Mem 0x0d path
  pub no_newline : ¬ Mem 0x0a path

pub record IsSafe (r : Request) : Type 0 where
  pub method_allowed : Mem r.method allowed_methods
  pub local_path : IsLocalPath r.path
  pub safe_headers : AreSafeHeaders r.headers
  pub distinct_headers : HasDistinctKeys r.headers
  pub few_headers : length r.headers ≤ 32
  pub body_bounded : length r.body ≤ max_request_body_bytes

is_path_inv :
    (path : Str)
    → is_path path ≡ true
    → (starts_with path (codes "/") ≡ true)
      × (starts_with path (codes "//") ≡ false)
      × (length path ≤ 4096)
      × (contains path 0x0d ≡ false)
      × (contains path 0x0a ≡ false)
unfolding is_path
is_path_inv path h = ground arith

absent : (xs : Str) (c : ℕ) → contains xs c ≡ false → ¬ Mem c xs
absent xs c h m = false≢true (sym h ∙ contains_of_mem xs c m)

is_path-IsLocalPath : (path : Str) → is_path path ≡ true → IsLocalPath path
is_path-IsLocalPath path h =
    let (rooted, no_authority, short, no_return, no_newline) = is_path_inv path h in
    record {
      rooted = rooted;
      no_authority = no_authority;
      short = short;
      no_return = absent path 0x0d no_return;
      no_newline = absent path 0x0a no_newline;
    }

text_if-eq-some :
    (p : Str → Bool) (v : Json) {s : Str} → text_if p v ≡ some s → (v ≡ text s) × (p s ≡ true)
text_if-eq-some p (text t) {s} h = elim (Bool-cases (p t)) [
  | inl passed ↦ let same : t ≡ s = ground arith in rw (← same) (refl, passed)
  | inr refused ↦ absurd (ground arith)
]
text_if-eq-some p v h = cc

method_field-allowed :
    (upper : Str → Str) (payload : Dict Str Json) {m : Str}
    → method_field upper payload ≡ ok m
    → Mem m allowed_methods
unfolding method_field
method_field-allowed upper payload e =
    let is_allowed = λ (m : Str). contains allowed_methods (upper m) in
    let value = payload_field payload (codes "method") (text (codes "GET")) in
    let (raw, is_text, e') =
      >>=-eq-ok (or_raise (user_input bad_method) (text_if is_allowed value)) _ e in
    let (_, allowed) = text_if-eq-some is_allowed value (or_raise-eq-ok _ _ is_text) in
    subst (λ n. Mem n allowed_methods) (ok-injective e')
      (mem_of_contains allowed_methods (upper raw) allowed)

path_field-IsLocalPath :
    (payload : Dict Str Json) {p : Str} → path_field payload ≡ ok p → IsLocalPath p
unfolding path_field
path_field-IsLocalPath payload e =
    is_path-IsLocalPath _ (text_if-eq-some is_path _ (or_raise-eq-ok _ _ e)).1

headers_field-few :
    (payload : Dict Str Json) {d : Dict Str Json} → headers_field payload ≡ ok d → length d ≤ 32
unfolding headers_field
headers_field-few payload e = ground arith

body_field-bounded :
    (payload : Dict Str Json) {b : List ℕ}
    → body_field payload ≡ ok b
    → length b ≤ max_request_body_bytes
unfolding body_field
body_field-bounded payload e = ground arith

-- The parts of a payload that a request is made of.
pub record Parts (upper : Str → Str) (payload : Dict Str Json) (r : Request) : Type 0 where
  pub raw_headers : Dict Str Json
  pub method : method_field upper payload ≡ ok r.method
  pub path : path_field payload ≡ ok r.path
  pub raw : headers_field payload ≡ ok raw_headers
  pub body : body_field payload ≡ ok r.body
  pub headers : validate_headers raw_headers [] ≡ ok r.headers

pub validate_request-Parts :
    (upper : Str → Str) (payload : Json) {r : Request}
    → validate_request upper payload ≡ ok r
    → (fields : Dict Str Json) × (as_object payload ≡ some fields) × Parts upper fields r
unfolding validate_request
validate_request-Parts upper payload {r} e₀ =
    let (fields, is_object, e₁) = >>=-eq-ok _ _ e₀ in
    let (method, m, e₂) = >>=-eq-ok (method_field upper fields) _ e₁ in
    let (path, p, e₃) = >>=-eq-ok (path_field fields) _ e₂ in
    let (raw, h, e₄) = >>=-eq-ok (headers_field fields) _ e₃ in
    let (body, b, e₅) = >>=-eq-ok (body_field fields) _ e₄ in
    let (headers, v, e₆) = >>=-eq-ok (validate_headers raw []) _ e₅ in
    let built : Request = record { method = method; path = path; headers = headers; body = body } in
    let same : built ≡ r = ok-injective e₆ in
    subst (λ q. (fields : Dict Str Json) × (as_object payload ≡ some fields) × Parts upper fields q)
      same
      (
        fields,
        or_raise-eq-ok (user_input not_an_object) (as_object payload) is_object,
        record { raw_headers = raw; method = m; path = p; raw = h; body = b; headers = v },
      )

-- The request that validation returns is safe: an allowed method, a local path on one line of at
-- most 4096 characters, at most 32 headers with distinct lower-case token names, none of them one
-- that the lab manages and each with a value on one line of at most 8192 characters, and a body
-- of at most 1 MiB.
pub validate_request-IsSafe :
    (upper : Str → Str) (payload : Json) {r : Request}
    → validate_request upper payload ≡ ok r
    → IsSafe r
validate_request-IsSafe upper payload e =
    let (fields, _, parts) = validate_request-Parts upper payload e in
    let (safe, distinct, few) = validate_headers_lem parts.raw_headers [] parts.headers tt tt in
    record {
      method_allowed = method_field-allowed upper fields parts.method;
      local_path = path_field-IsLocalPath fields parts.path;
      safe_headers = safe;
      distinct_headers = distinct;
      few_headers = omega (arith, few, headers_field-few fields parts.raw);
      body_bounded = body_field-bounded fields parts.body;
    }
