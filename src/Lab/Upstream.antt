-- ===== src/Lab/Upstream.antt =====
-- `EchoUpstreamHandler` of tools/owasp-crs-lab.py: the server behind Envoy, which echoes a request
-- and marks its responses. `to_int` is Python's `int` on a text, `decode` the decoding of bytes with
-- replacement, `dumps` the bytes of `json.dumps`, `standard` the headers that `send_response` sends
-- by itself and `unsupported` the answer of `http.server` to a method without a handler.
pub mod Reached
mod Tests
use envoy_modsecurity.Prelude.{
  ℕ, Bool, true, false, List, [], ◌∷◌, ◌++◌, Option, none, some, if◌then◌else◌, ◌==◌, nat_eq,
  list_eq,
}
use envoy_modsecurity.Prelude.Lists.{length, contains}
use envoy_modsecurity.Prelude.Text.{Str, codes, decimal}
use envoy_modsecurity.Prelude.Int.{ℤ, is_zero}
use envoy_modsecurity.Prelude.Json.{Json, null, text, object, field, end}
use envoy_modsecurity.Lab.Execute.{Reply}

-- A request as the handler finds it. `read n` is `self.rfile.read(n)`.
pub record Received : Type 0 where
  pub method : Str
  pub path : Str
  pub content_length : Option Str
  pub content_type : Option Str
  pub read : ℤ → List ℕ

-- `self.headers.get("content-length", "0")`
abbrev pub declared_length : Received → Str
declared_length q = elim q.content_length [ none ↦ codes "0" | some s ↦ s ]

abbrev pub text_or_null : Option Str → Json
text_or_null none = null
text_or_null (some s) = text s

-- The method has a handler, and whether that handler sends the body.
unfoldable pub do_method : Str → Option Bool
unfolding contains
do_method method =
    if method == codes "HEAD"
    then some false
    else if contains
        (codes "DELETE"
          ∷ codes "GET"
          ∷ codes "OPTIONS"
          ∷ codes "PATCH"
          ∷ codes "POST"
          ∷ codes "PUT"
          ∷ [])
        method
    then some true
    else none

abbrev pub upstream_mark : Str
upstream_mark = codes "x-owasp-lab-upstream"

module _ (to_int : Str → Option ℤ) (decode : List ℕ → Str) (dumps : Json → List ℕ)
    (standard : List (Str × Str)) (unsupported : Reply) where
  -- The dict `response`.
  unfoldable pub echo : Received → List ℕ → Json
  echo q body = object (
      field (codes "message") (text (codes "request reached the local upstream")) (
        field (codes "method") (text q.method) (
          field (codes "path") (text q.path) (
            field (codes "content_type") (text_or_null q.content_type)
              (field (codes "body") (text (decode body)) end)))))

  -- What is sent with a response body.
  unfoldable pub response : (response_body : List ℕ) → (send_body : Bool) → Reply
  response response_body send_body = record {
    status = 200;
    reason = codes "OK";
    headers =
        standard
        ++ (codes "content-type", codes "application/json; charset=utf-8")
          ∷ (upstream_mark, codes "reached")
          ∷ (codes "content-length", decimal (if send_body then length response_body else 0))
          ∷ [];
    body = if send_body then response_body else [];
  }

  -- `_respond`; `none` is the ValueError of `int`, which leaves the handler with no response sent.
  unfoldable pub respond : Received → (send_body : Bool) → Option Reply
  unfolding echo response
  respond q send_body = elim (to_int (declared_length q)) [
    | none ↦ none
    | some n ↦ some (response (dumps (echo q (if is_zero n then [] else q.read n))) send_body)
  ]

  -- A request at the server.
  unfoldable pub handle : Received → Option Reply
  handle q = elim (do_method q.method) [
    | none ↦ some unsupported
    | some send_body ↦ respond q send_body
  ]
