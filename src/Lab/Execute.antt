-- ===== src/Lab/Execute.antt =====
-- `LabRuntime.execute_request` of tools/owasp-crs-lab.py. What the call finds outside is a `World`.
pub mod Answered
use envoy_modsecurity.Prelude.{
  ℕ, suc, ◌+◌, ◌≡◌, refl, Bool, true, false, not, ◌&&◌, List, [], ◌∷◌, ◌++◌, map, Option, none,
  some, ltb, if◌then◌else◌, ◌==◌, nat_eq, list_eq,
}
use envoy_modsecurity.Prelude.Lists.{length, take}
use envoy_modsecurity.Prelude.Dicts.{Dict, get}
use envoy_modsecurity.Prelude.Text.{Str, codes, ascii_lower, join}
use envoy_modsecurity.Prelude.Json.{Json, object, field, end, items}
use envoy_modsecurity.Lab.Errors.{Exception, Result, ok, err, runtime_error, ◌>>=◌, ◌>>◌}
use envoy_modsecurity.Lab.Request.{Request, validate_request}
use envoy_modsecurity.Lab.Outgoing.{outgoing_headers}
use envoy_modsecurity.Lab.Access.{Poll, wait_for_access_entry}

abbrev pub max_response_body_bytes : ℕ
max_response_body_bytes = 1048576

-- What Envoy answers: the header list as it came, and the whole body.
pub record Reply : Type 0 where
  pub status : ℕ
  pub reason : Str
  pub headers : List (Str × Str)
  pub body : List ℕ

-- Envoy's state, the fresh request id, the exchange over HTTP (which `http.client` and Envoy
-- carry out, and which may raise), the measured time, the rounds of the access log, and the
-- two functions of the standard library on text.
pub record World : Type 0 where
  pub envoy_running : Bool
  pub request_id : Str
  pub exchange : Request → Result Reply
  pub elapsed_ms : ℕ
  pub polls : List Poll
  pub upper : Str → Str
  pub decode_replace : List ℕ → Str

pub record Report : Type 0 where
  pub request_id : Str
  pub upstream_reached : Bool
  pub security_event : Option Json
  pub status : ℕ
  pub reason : Str
  pub detail : Option Json
  pub elapsed_ms : ℕ
  pub headers : List (Str × Str)
  pub body : Str
  pub truncated : Bool

-- `response.getheader(name)`: the values of that name, whatever its case, joined.
unfoldable pub header_values : Str → List (Str × Str) → List Str
header_values name [] = []
header_values name ((k, v) ∷ rest) =
    let values = header_values name rest in
    if map ascii_lower k == map ascii_lower name then v ∷ values else values

unfoldable pub upstream_marked : Reply → Bool
unfolding header_values join
upstream_marked reply = elim (header_values (codes "x-owasp-lab-upstream") reply.headers) [
  | [] ↦ false
  | v ∷ vs ↦ join (codes ", ") (v ∷ vs) == codes "reached"
]

-- `candidate if isinstance(candidate, dict) and candidate`
abbrev pub event_of : Option Json → Option Json
event_of (some (object (field k v fs))) = some (object (field k v fs))
event_of _ = none

abbrev pub entry_field : Option (Dict Str Json) → Str → Option Json
entry_field none key = none
entry_field (some entry) key = get key entry

-- `response.read(MAX_RESPONSE_BODY_BYTES + 1)`
unfoldable pub read_body : Reply → List ℕ
read_body reply = take (suc max_response_body_bytes) reply.body

unfoldable pub body_truncated : Reply → Bool
body_truncated reply = ltb max_response_body_bytes (length (read_body reply))

unfoldable pub kept_body : Reply → List ℕ
kept_body reply =
    if body_truncated reply then take max_response_body_bytes (read_body reply) else read_body reply

unfoldable pub report : World → Reply → Option (Dict Str Json) → Report
report world reply entry = record {
  request_id = world.request_id;
  upstream_reached = upstream_marked reply;
  security_event = event_of (entry_field entry (codes "modsecurity"));
  status = reply.status;
  reason = reply.reason;
  detail = entry_field entry (codes "response_code_details");
  elapsed_ms = world.elapsed_ms;
  headers = reply.headers;
  body = world.decode_replace (kept_body reply);
  truncated = body_truncated reply;
}

-- The request with the headers that are sent.
unfoldable pub outgoing : World → Request → Request
outgoing world r = record r { headers = outgoing_headers r.headers world.request_id r.body }

-- `if self.envoy is None or self.envoy.poll() is not None: raise RuntimeError(...)`
abbrev pub require_running : Bool → Result (Unit {0})
require_running true = ok tt
require_running false = err runtime_error

unfoldable pub execute_request : World → Json → Result Report
execute_request world payload = do
  require_running world.envoy_running
  r ← validate_request world.upper payload
  reply ← world.exchange (outgoing world r)
  entry ← wait_for_access_entry world.request_id world.polls
  ok (report world reply entry)
