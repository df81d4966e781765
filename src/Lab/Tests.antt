-- ===== src/Lab/Tests.antt =====
-- Runs of tools/owasp-crs-lab.py on small inputs, and its theorems at them.
use envoy_modsecurity.Prelude.{
  ℕ, ◌-◌, ◌≡◌, ◌≢◌, refl, true, false, List, [], ◌∷◌, Option, none, some, map, arith, ltb, leb,
  ◌&&◌, if◌then◌else◌, ◌==◌, nat_eq, list_eq,
}
use envoy_modsecurity.Prelude.Lists.{length, any, all, contains, take}
use envoy_modsecurity.Prelude.Dicts.{get, set_item}
use envoy_modsecurity.Prelude.Equality.{list_beq}
use envoy_modsecurity.Prelude.Text.{Str, codes, starts_with, ascii_lower}
use envoy_modsecurity.Prelude.Bytes.{encode_utf8, utf8, utf8_bytes, is_surrogate}
use envoy_modsecurity.Prelude.Int.{ℤ, pos}
use envoy_modsecurity.Prelude.Json.{text, object, Fields, field, end, items}
use envoy_modsecurity.Lab.Errors.{ok, err, unicode_encode_error, user_input, managed_header, reject}
use envoy_modsecurity.Lab.Request.{
  Request, validate_request, validate_headers, validate_header, method_field, path_field,
  headers_field, body_field, is_path, is_header_name, is_token_char, has_line_break, payload_field,
}
use envoy_modsecurity.Lab.Request.Safe.{IsSafe, validate_request-IsSafe}
use envoy_modsecurity.Lab.Access.{Poll, find_entry, wait_for_access_entry, is_entry}
use envoy_modsecurity.Lab.Execute.{
  World, Reply, Report, execute_request, outgoing, report, body_truncated, kept_body,
  max_response_body_bytes,
}
use envoy_modsecurity.Lab.Execute.Answered.{outgoing_lem, kept_body_lem}
use envoy_modsecurity.Lab.Api.{
  Post, result, answered, unanswered, do_post, post_authorised, handle_result, compare_digest,
  is_ascii,
}
use envoy_modsecurity.Lab.Api.Guards.{
  Authorised, do_post-Authorised, do_post_needs_token, do_post_surrogate,
}

-- `str.upper` on ASCII letters.
upper_char : ℕ → ℕ
upper_char c = if leb b'a' c && leb c b'z' then c - 32 else c

abbrev sample_fields : Fields
sample_fields = field (codes "method") (text (codes "post")) (
    field (codes "path") (text (codes "/login?id=1")) (
      field (codes "headers") (object (field (codes "X-Trace") (text (codes "7")) end))
        (field (codes "body") (text (codes "a=1")) end)))

abbrev sample_request : Request
sample_request = record {
  method = codes "POST";
  path = codes "/login?id=1";
  headers = (codes "x-trace", codes "7") ∷ [];
  body = b'a' ∷ b'=' ∷ b'1' ∷ [];
}

abbrev ascii_upper : Str → Str
ascii_upper s = map upper_char s

sample_valid : validate_request ascii_upper (object sample_fields) ≡ ok sample_request
unfolding upper_char validate_request validate_headers validate_header method_field path_field
    headers_field body_field is_path is_header_name is_token_char has_line_break contains list_beq
    all any starts_with encode_utf8 utf8 utf8_bytes is_surrogate ascii_lower reject set_item get
sample_valid = refl

managed_refused :
    validate_header (codes "Host") (text (codes "evil"))
    ≡ err (user_input (managed_header (codes "Host")))
unfolding validate_header is_header_name is_token_char has_line_break contains list_beq all
    ascii_lower reject
managed_refused = refl

validate_request-IsSafe_example : IsSafe sample_request
validate_request-IsSafe_example =
    validate_request-IsSafe ascii_upper (object sample_fields) sample_valid

abbrev sample_entry : Fields
sample_entry =
    field (codes "request_id") (text (codes "r1"))
      (field (codes "response_code_details") (text (codes "via_upstream")) end)

abbrev sample_polls : List Poll
sample_polls =
    record { running = true; lines = none ∷ [] }
    ∷ record { running = true; lines = some (object sample_entry) ∷ none ∷ [] }
    ∷ []

abbrev sample_reply : Reply
sample_reply = record {
  status = 200;
  reason = codes "OK";
  headers = (codes "X-OWASP-Lab-Upstream", codes "reached") ∷ [];
  body = b'o' ∷ b'k' ∷ [];
}

abbrev sample_world : World
sample_world = record {
  envoy_running = true;
  request_id = codes "r1";
  exchange = λ r. ok sample_reply;
  elapsed_ms = 3;
  polls = sample_polls;
  upper = ascii_upper;
  decode_replace = λ bytes. bytes;
}

abbrev sample_post : Post
sample_post = record {
  path = codes "/api/test";
  token_header = some (codes "secret");
  length_header = some (codes "70");
  load = λ n. ok (object sample_fields);
}

abbrev surrogate_fields : Fields
surrogate_fields = field (codes "body") (text (0xd800 ∷ [])) end

abbrev surrogate_post : Post
surrogate_post = record sample_post { load = λ n. ok (object surrogate_fields) }

-- `int` on the texts of these runs.
abbrev sample_int : Str → Option ℤ
sample_int s = if s == codes "70" then some (pos 70) else none

abbrev sample_report : Report
sample_report = report sample_world sample_reply (some (items sample_entry))

entry_found : wait_for_access_entry (codes "r1") sample_polls ≡ ok (some (items sample_entry))
unfolding wait_for_access_entry find_entry get list_beq
entry_found = refl

sample_answered :
    do_post (codes "secret") sample_int sample_world sample_post
    ≡ answered 200 (result sample_report)
unfolding do_post post_authorised handle_result compare_digest all list_beq execute_request
sample_answered = rw (sample_valid, entry_found) refl

do_post-Authorised_example :
    (r : Report) × (result sample_report ≡ result r)
    × Authorised (codes "secret") sample_int sample_world sample_post r
do_post-Authorised_example =
    do_post-Authorised (codes "secret") sample_int sample_world sample_post sample_answered

wrong_token : codes "secret" ≢ codes "other"
wrong_token h = cc

do_post_needs_token_example :
    do_post (codes "other") sample_int sample_world sample_post
    ≡ do_post (codes "other") sample_int (record sample_world { envoy_running = false }) sample_post
do_post_needs_token_example =
    do_post_needs_token (codes "other") sample_int sample_world
      (record sample_world { envoy_running = false }) sample_post wrong_token

trace_given : get (codes "x-trace") sample_request.headers ≡ some (codes "7")
unfolding get list_beq
trace_given = refl

outgoing_lem_example :
    (get (codes "host") (outgoing sample_world sample_request).headers ≡ some (codes "lab.local"))
    × (get (codes "x-owasp-lab-id") (outgoing sample_world sample_request).headers
        ≡ some (codes "r1"))
    × (get (codes "x-trace") (outgoing sample_world sample_request).headers ≡ some (codes "7"))
outgoing_lem_example =
    outgoing_lem sample_world sample_request (codes "x-trace") (codes "7")
      (validate_request-IsSafe ascii_upper (object sample_fields) sample_valid) trace_given

kept_body_lem_example :
    (kept_body sample_reply ≡ take max_response_body_bytes sample_reply.body)
    × (body_truncated sample_reply ≡ ltb max_response_body_bytes (length sample_reply.body))
kept_body_lem_example = kept_body_lem sample_reply

all_running : all (λ p. p.running) sample_polls ≡ true
unfolding all
all_running = refl

some_entry : any (λ p. any (is_entry (codes "r1")) p.lines) sample_polls ≡ true
unfolding any get list_beq
some_entry = refl

default_method : method_field ascii_upper (items surrogate_fields) ≡ ok (codes "GET")
unfolding upper_char method_field contains list_beq get
default_method = refl

default_path : path_field (items surrogate_fields) ≡ ok (codes "/")
unfolding path_field is_path starts_with has_line_break contains list_beq get
default_path = refl

default_headers : headers_field (items surrogate_fields) ≡ ok []
unfolding headers_field list_beq get reject
default_headers = refl

surrogate_body :
    payload_field (items surrogate_fields) (codes "body") (text []) ≡ text (0xd800 ∷ [])
unfolding get list_beq
surrogate_body = refl

declared_size : sample_int (codes "70") ≡ some (pos 70)
unfolding list_beq
declared_size = refl

secret_ascii : is_ascii (codes "secret") ≡ true
unfolding all
secret_ascii = refl

is_lone : any is_surrogate (0xd800 ∷ []) ≡ true
unfolding any is_surrogate
is_lone = refl

do_post_surrogate_example :
    do_post (codes "secret") sample_int sample_world surrogate_post
    ≡ unanswered unicode_encode_error
do_post_surrogate_example =
    do_post_surrogate (codes "secret") sample_int sample_world surrogate_post 70 surrogate_fields
      (0xd800 ∷ []) refl refl secret_ascii declared_size (omega arith) (omega arith) refl refl
      (codes "GET") (codes "/") [] default_method default_path default_headers surrogate_body
      is_lone

-- A header that is not ASCII.
abbrev accented_post : Post
accented_post = record sample_post { token_header = some (0xe9 ∷ []) }
