-- ===== src/Lab/Upstream/Tests.antt =====
-- The echo upstream of tools/owasp-crs-lab.py behind a proxy that blocks quotes, on small inputs.
use envoy_modsecurity.Prelude.{
  ℕ, ◌≡◌, ◌≢◌, refl, Bool, true, List, [], ◌∷◌, Option, none, some, arith, if◌then◌else◌, ◌==◌,
  nat_eq, list_eq,
}
use envoy_modsecurity.Prelude.Equality.{list_beq}
use envoy_modsecurity.Prelude.Lists.{contains}
use envoy_modsecurity.Prelude.Dicts.{get}
use envoy_modsecurity.Prelude.Text.{Str, codes, ascii_lower, starts_with}
use envoy_modsecurity.Prelude.Int.{ℤ, pos}
use envoy_modsecurity.Prelude.Json.{Json, text, object, field, end}
use envoy_modsecurity.Lab.Errors.{Result, ok, reject}
use envoy_modsecurity.Lab.Request.{
  Request, validate_request, validate_headers, method_field, path_field, headers_field, body_field,
  is_path, has_line_break,
}
use envoy_modsecurity.Prelude.Bytes.{encode_utf8, utf8}
use envoy_modsecurity.Lab.Access.{wait_for_access_entry}
use envoy_modsecurity.Lab.Execute.{
  World, Reply, Report, header_values, execute_request, outgoing, report,
}
use envoy_modsecurity.Lab.Upstream.{do_method, response, respond, handle}
use envoy_modsecurity.Lab.Upstream.Reached.{
  Proxy, IsUnmarked, IsTransparent, is_forwarded, exchange_through, execute_request_reached,
}

abbrev sample_int : Str → Option ℤ
sample_int s = if s == codes "0" then some (pos 0) else none

abbrev sample_dumps : Json → List ℕ
sample_dumps j = codes "{}"

abbrev standard : List (Str × Str)
standard = (codes "Server", codes "BaseHTTP") ∷ []

abbrev plain : ℕ → Reply
plain status = record { status = status; reason = codes "Forbidden"; headers = []; body = [] }

abbrev sample_proxy : Proxy
sample_proxy = record {
  local = λ q. if contains q.path b'\'' then some (plain 403) else none;
  forward = λ q. record {
    method = q.method;
    path = q.path;
    content_length = none;
    content_type = none;
    read = λ n. [];
  };
  returned = λ r. r;
  reset = plain 503;
}

local-IsUnmarked :
    (b : Bool) (reply : Reply)
    → ◌≡◌ {A = Option Reply} (if b then some (plain 403) else none) (some reply)
    → IsUnmarked reply.headers
unfolding header_values
local-IsUnmarked b reply h = ground arith

length_read : sample_int (codes "0") ≢ none
unfolding list_beq
length_read h = cc

sample_proxy-IsTransparent : IsTransparent sample_int sample_proxy
sample_proxy-IsTransparent = record {
  local_unmarked = λ q reply h. local-IsUnmarked (contains q.path b'\'') reply h;
  keeps_method = λ q. refl;
  sends_length = λ q. length_read;
  keeps_mark = λ reply. refl;
}

standard-IsUnmarked : IsUnmarked standard
unfolding header_values list_beq ascii_lower
standard-IsUnmarked = refl

abbrev sample_exchange : Request → Result Reply
sample_exchange =
    exchange_through sample_int (λ s. s) sample_dumps standard (plain 501) sample_proxy

abbrev sample_world : World
sample_world = record {
  envoy_running = true;
  request_id = codes "r1";
  exchange = sample_exchange;
  elapsed_ms = 3;
  polls = [];
  upper = λ s. s;
  decode_replace = λ s. s;
}

abbrev request_for : Str → Json
request_for path = object (field (codes "path") (text path) end)

sample_outgoing : Str → Request
sample_outgoing path =
    outgoing sample_world (record { method = codes "GET"; path = path; headers = []; body = [] })

blocked_valid :
    validate_request (λ s. s) (request_for (codes "/a'b"))
    ≡ ok (record { method = codes "GET"; path = codes "/a'b"; headers = []; body = [] })
unfolding validate_request validate_headers method_field path_field headers_field body_field is_path
    has_line_break contains list_beq starts_with encode_utf8 utf8 reject get
blocked_valid = refl

abbrev blocked_report : Report
blocked_report = report sample_world (plain 403) none

blocked_exchange : sample_exchange (sample_outgoing (codes "/a'b")) ≡ ok (plain 403)
unfolding sample_outgoing outgoing exchange_through contains
blocked_exchange = refl

nothing_logged : wait_for_access_entry (codes "r1") [] ≡ ok none
unfolding wait_for_access_entry
nothing_logged = refl

blocked_run : execute_request sample_world (request_for (codes "/a'b")) ≡ ok blocked_report
unfolding execute_request sample_outgoing
blocked_run = rw (blocked_valid, blocked_exchange, nothing_logged) refl

execute_request_reached_example :
    (q : Request) × (validate_request (λ s. s) (request_for (codes "/a'b")) ≡ ok q)
    × (blocked_report.upstream_reached
        ≡ is_forwarded (sample_proxy.local (outgoing sample_world q)))
unfolding report
execute_request_reached_example =
    execute_request_reached sample_int (λ s. s) sample_dumps standard (plain 501) sample_proxy
      sample_world (request_for (codes "/a'b")) sample_proxy-IsTransparent standard-IsUnmarked refl
      blocked_run

-- A request without a quote reaches the upstream.
forwarded_exchange :
    sample_exchange (sample_outgoing (codes "/ab"))
    ≡ ok (response sample_int (λ s. s) sample_dumps standard (plain 501) (codes "{}") true)
unfolding sample_outgoing outgoing exchange_through contains handle respond do_method list_beq
forwarded_exchange = refl
