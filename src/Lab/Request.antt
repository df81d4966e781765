-- ===== src/Lab/Request.antt =====
-- `validate_request` of tools/owasp-crs-lab.py: the checks on the payload of an API call. The
-- Unicode case mapping `str.upper` is the parameter `upper`.
pub mod Headers
pub mod Safe
use envoy_modsecurity.Prelude.{
  ℕ, ◌≡◌, refl, Bool, true, false, not, ◌&&◌, ◌||◌, List, [], ◌∷◌, map, Option, none, some, ltb,
  leb, if◌then◌else◌, ◌==◌, nat_eq, list_eq,
}
use envoy_modsecurity.Prelude.Lists.{length, all, contains, is_empty}
use envoy_modsecurity.Prelude.Dicts.{Dict, get, set_item}
use envoy_modsecurity.Prelude.Text.{Str, codes, starts_with, ascii_lower}
use envoy_modsecurity.Prelude.Bytes.{encode_utf8}
use envoy_modsecurity.Prelude.Json.{Json, null, boolean, number, text, array, object, end, items}
use envoy_modsecurity.Lab.Errors.{
  UserInputError, not_an_object, bad_method, bad_path, bad_headers, body_not_text, body_too_large,
  bad_header_name, bad_header_value, managed_header, long_header_value, unicode_encode_error,
  user_input, Result, ok, err, ◌>>=◌, ◌>>◌, reject, or_raise,
}

abbrev pub max_request_body_bytes : ℕ
max_request_body_bytes = 1048576

abbrev pub disallowed_request_headers : List Str
disallowed_request_headers =
    codes "connection"
    ∷ codes "content-length"
    ∷ codes "host"
    ∷ codes "proxy-connection"
    ∷ codes "transfer-encoding"
    ∷ codes "upgrade"
    ∷ codes "x-owasp-lab-id"
    ∷ []

abbrev pub allowed_methods : List Str
allowed_methods =
    codes "DELETE"
    ∷ codes "GET"
    ∷ codes "HEAD"
    ∷ codes "OPTIONS"
    ∷ codes "PATCH"
    ∷ codes "POST"
    ∷ codes "PUT"
    ∷ []

-- A character of HEADER_NAME_PATTERN.
unfoldable pub is_token_char : ℕ → Bool
unfolding contains
is_token_char c =
    (leb b'0' c && leb c b'9')
    || (leb b'A' c && leb c b'Z')
    || (leb b'a' c && leb c b'z')
    || contains (codes "!#$%&'*+.^_`|~-") c

-- `HEADER_NAME_PATTERN.fullmatch(name)`
unfoldable pub is_header_name : Str → Bool
unfolding all is_token_char
is_header_name name = not (is_empty name) && all is_token_char name

-- `"\r" in s or "\n" in s`
unfoldable pub has_line_break : Str → Bool
unfolding contains
has_line_break s = contains s 0x0d || contains s 0x0a

abbrev pub field_or : Json → Option Json → Json
field_or default none = default
field_or default (some v) = v

-- `isinstance(v, str)` and `isinstance(v, dict)`, with the value.
abbrev pub as_text : Json → Option Str
as_text (text s) = some s
as_text _ = none

abbrev pub as_object : Json → Option (Dict Str Json)
as_object (object fs) = some (items fs)
as_object _ = none

-- `isinstance(v, str) and p(v)`, as the value for which it holds.
abbrev pub text_if : (Str → Bool) → Json → Option Str
text_if p (text s) = if p s then some s else none
text_if p _ = none

unfoldable pub is_path : Str → Bool
unfolding has_line_break starts_with
is_path path =
    starts_with path (codes "/")
    && not (starts_with path (codes "//"))
    && leb (length path) 4096
    && not (has_line_break path)

pub record Request : Type 0 where
  pub method : Str
  pub path : Str
  pub headers : Dict Str Str
  pub body : List ℕ

-- The checks on one header, which give its name in lower case and its value.
unfoldable pub validate_header : Str → Json → Result (Str × Str)
unfolding reject
validate_header raw_name raw_value = do
  reject (not (is_header_name raw_name)) (bad_header_name raw_name)
  value ←
      or_raise (user_input (bad_header_value raw_name))
        (text_if (λ v. not (has_line_break v)) raw_value)
  let name = map ascii_lower raw_name
  reject (contains disallowed_request_headers name) (managed_header raw_name)
  reject (ltb 8192 (length value)) (long_header_value raw_name)
  ok (name, value)

-- The loop over `raw_headers.items()`.
unfoldable pub validate_headers : Dict Str Json → Dict Str Str → Result (Dict Str Str)
validate_headers [] headers = ok headers
validate_headers ((raw_name, raw_value) ∷ rest) headers = do
  header ← validate_header raw_name raw_value
  validate_headers rest (set_item header.0 header.1 headers)

-- `payload.get(key, default)`
abbrev pub payload_field : Dict Str Json → Str → Json → Json
payload_field payload key default = field_or default (get key payload)

-- The check on the method, in capitals.
unfoldable pub method_field : (Str → Str) → Dict Str Json → Result Str
method_field upper payload = do
  method ← or_raise (user_input bad_method) (
      text_if (λ m. contains allowed_methods (upper m))
        (payload_field payload (codes "method") (text (codes "GET"))))
  ok (upper method)

unfoldable pub path_field : Dict Str Json → Result Str
path_field payload =
    or_raise (user_input bad_path)
      (text_if is_path (payload_field payload (codes "path") (text (codes "/"))))

unfoldable pub headers_field : Dict Str Json → Result (Dict Str Json)
unfolding reject
headers_field payload = do
  raw_headers ←
      or_raise (user_input bad_headers)
        (as_object (payload_field payload (codes "headers") (object end)))
  reject (ltb 32 (length raw_headers)) bad_headers
  ok raw_headers

unfoldable pub body_field : Dict Str Json → Result (List ℕ)
unfolding reject
body_field payload = do
  body ←
      or_raise (user_input body_not_text) (as_text (payload_field payload (codes "body") (text [])))
  body_bytes ← or_raise unicode_encode_error (encode_utf8 body)
  reject (ltb max_request_body_bytes (length body_bytes)) body_too_large
  ok body_bytes

unfoldable pub validate_request : (Str → Str) → Json → Result Request
validate_request upper raw_payload = do
  payload ← or_raise (user_input not_an_object) (as_object raw_payload)
  method ← method_field upper payload
  path ← path_field payload
  raw_headers ← headers_field payload
  body_bytes ← body_field payload
  headers ← validate_headers raw_headers []
  ok (record { method = method; path = path; headers = headers; body = body_bytes })
