-- ===== src/Lab/Api.antt =====
-- `LabRequestHandler` of tools/owasp-crs-lab.py: the routes of the web UI's server. The token, the
-- rule count and the page are the runtime's; `to_int` is Python's `int` on a text.
pub mod Guards
pub mod Unanswered
use envoy_modsecurity.Prelude.{
  ℕ, zero, suc, ◌+◌, ◌≡◌, refl, Bool, true, false, not, ◌&&◌, ◌||◌, List, [], ◌∷◌, ◌++◌, Option,
  none, some, ltb, leb, if◌then◌else◌, ◌==◌, nat_eq, list_eq,
}
use envoy_modsecurity.Prelude.Lists.{length, all}
use envoy_modsecurity.Prelude.Text.{Str, codes}
use envoy_modsecurity.Prelude.Int.{ℤ, pos, negsuc}
use envoy_modsecurity.Prelude.Json.{Json}
use envoy_modsecurity.Lab.Errors.{
  Exception, UserInputError, Result, ok, err, ◌>>=◌, user_input, decode_error, transport_error,
  runtime_error, unicode_encode_error, type_error,
}
use envoy_modsecurity.Lab.Execute.{World, Report, execute_request}

abbrev pub max_api_bytes : ℕ
max_api_bytes = 2097152

-- The bodies that the handler sends.
pub data Body : Type 0 where
  not_found invalid_token invalid_length bad_size invalid_json : Body
  rejected : UserInputError → Body
  failed : Exception → Body
  result : Report → Body
  page : Str → Body
  status_report : (envoy_ready : Bool) (rule_files : ℕ) → Body
  nothing : Body

-- What becomes of a request: a response with its status, or an exception that leaves the handler,
-- whose connection is then closed with no response.
pub data Answer : Type 0 where
  answered : (status : ℕ) → Body → Answer
  unanswered : Exception → Answer

-- A POST request. `load n` is `json.loads(self.rfile.read(n))`.
pub record Post : Type 0 where
  pub path : Str
  pub token_header : Option Str
  pub length_header : Option Str
  pub load : ℕ → Result Json

-- `self.headers.get(name, default)`
abbrev pub header_or : Str → Option Str → Str
header_or default none = default
header_or default (some s) = s

abbrev pub is_ascii : Str → Bool
is_ascii s = all (λ c. ltb c 128) s

-- `secrets.compare_digest` on two texts: TypeError unless both are ASCII.
unfoldable pub compare_digest : Str → Str → Result Bool
unfolding all
compare_digest a b = if is_ascii a && is_ascii b then ok (a == b) else err type_error

-- `length <= 0 or length > MAX_API_BYTES`, and otherwise the length.
abbrev pub accepted_length : ℤ → Option ℕ
accepted_length (pos n) = if leb 1 n && leb n max_api_bytes then some n else none
accepted_length (negsuc n) = none

-- The clauses of the `try` statement.
unfoldable pub handle_result : Result Report → Answer
handle_result (ok r) = answered 200 (result r)
handle_result (err decode_error) = answered 400 invalid_json
handle_result (err (user_input e)) = answered 400 (rejected e)
handle_result (err transport_error) = answered 502 (failed transport_error)
handle_result (err runtime_error) = answered 502 (failed runtime_error)
handle_result (err unicode_encode_error) = unanswered unicode_encode_error
handle_result (err type_error) = unanswered type_error

module _ (token : Str) (to_int : Str → Option ℤ) where
  -- The part under the check of the token.
  unfoldable pub post_authorised : World → Post → Answer
  post_authorised world post = elim (to_int (header_or (codes "0") post.length_header)) [
    | none ↦ answered 400 invalid_length
    | some n ↦ elim (accepted_length n) [
      | none ↦ answered 413 bad_size
      | some size ↦ handle_result (do payload ← post.load size; execute_request world payload)
    ]
  ]

  unfoldable pub do_post : World → Post → Answer
  unfolding compare_digest
  do_post world post =
      if not (post.path == codes "/api/test")
      then answered 404 not_found
      else elim (compare_digest (header_or [] post.token_header) token) [
        | err e ↦ unanswered e
        | ok same ↦ if same then post_authorised world post else answered 403 invalid_token
      ]

  unfoldable pub do_get : (html : Str → Str) (envoy_ready : Bool) (rule_files : ℕ) → Str → Answer
  do_get html envoy_ready rule_files path =
      if path == codes "/"
      then answered 200 (page (html token))
      else if path == codes "/api/status"
      then answered 200 (status_report envoy_ready rule_files)
      else if path == codes "/favicon.ico"
      then answered 204 nothing
      else answered 404 not_found
