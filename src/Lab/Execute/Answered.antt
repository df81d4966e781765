-- ===== src/Lab/Execute/Answered.antt =====
-- What a call of `execute_request` (tools/owasp-crs-lab.py) that returns has sent and read.
use envoy_modsecurity.Prelude.{
  ℕ, zero, suc, ◌≡◌, refl, ap, Bool, true, false, List, [], ◌∷◌, Option, some, arith, ltb,
  if◌then◌else◌, nat_eq, list_eq, Bool-cases, inl, inr,
}
use envoy_modsecurity.Prelude.Lists.{length, take}
use envoy_modsecurity.Prelude.Dicts.{Dict, get}
use envoy_modsecurity.Prelude.Text.{Str, codes}
use envoy_modsecurity.Prelude.Json.{Json}
use envoy_modsecurity.Lab.Errors.{ok, >>=-eq-ok, ok-injective}
use envoy_modsecurity.Lab.Request.{Request, validate_request}
use envoy_modsecurity.Lab.Request.Safe.{IsSafe, validate_request-IsSafe}
use envoy_modsecurity.Lab.Request.Headers.{get-IsSafeHeader}
use envoy_modsecurity.Lab.Outgoing.{outgoing_managed, outgoing_forwarded}
use envoy_modsecurity.Lab.Access.{wait_for_access_entry}
use envoy_modsecurity.Lab.Execute.{
  World, Reply, Report, max_response_body_bytes, read_body, body_truncated, kept_body, report,
  outgoing, require_running, execute_request,
}

-- A reading of one byte more than the limit shows whether the body is longer.
length-take-suc : (n : ℕ) (b : List ℕ) → ltb n (length (take (suc n) b)) ≡ ltb n (length b)
length-take-suc zero [] = refl
length-take-suc zero (x ∷ b) = ground arith
length-take-suc (suc n) [] = refl
length-take-suc (suc n) (x ∷ b) = ground (arith, length-take-suc n b)

take-take-suc : (n : ℕ) (b : List ℕ) → take n (take (suc n) b) ≡ take n b
take-take-suc zero b = refl
take-take-suc (suc n) [] = refl
take-take-suc (suc n) (x ∷ b) = ap (◌∷◌ x) (take-take-suc n b)

take_short : (n : ℕ) (b : List ℕ) → ltb n (length b) ≡ false → take (suc n) b ≡ take n b
take_short zero [] h = refl
take_short zero (x ∷ b) h = absurd (ground arith)
take_short (suc n) [] h = refl
take_short (suc n) (x ∷ b) h = ap (◌∷◌ x) (take_short n b (ground arith))

cut :
    (n : ℕ) (b : List ℕ)
    → (if ltb n (length (take (suc n) b)) then take n (take (suc n) b) else take (suc n) b)
      ≡ take n b
cut n b = elim (Bool-cases (ltb n (length b))) [
  | inl long ↦ rw (length-take-suc n b, long) (take-take-suc n b)
  | inr short ↦ rw (length-take-suc n b, short) (take_short n b short)
]

-- The body that is kept of a reply is the first mebibyte of the whole body, and it is marked as
-- truncated exactly when the whole body is longer.
pub kept_body_lem :
    (reply : Reply)
    → (kept_body reply ≡ take max_response_body_bytes reply.body)
      × (body_truncated reply ≡ ltb max_response_body_bytes (length reply.body))
unfolding kept_body body_truncated read_body
kept_body_lem reply =
    (cut max_response_body_bytes reply.body, length-take-suc max_response_body_bytes reply.body)

-- What a completed exchange was.
pub record Sent (world : World) (payload : Json) (result : Report) : Type 0 where
  pub request : Request
  pub reply : Reply
  pub entry : Option (Dict Str Json)
  pub validated : validate_request world.upper payload ≡ ok request
  pub safe : IsSafe request
  pub exchanged : world.exchange (outgoing world request) ≡ ok reply
  pub awaited : wait_for_access_entry world.request_id world.polls ≡ ok entry
  pub reported : report world reply entry ≡ result

is_running : (b : Bool) {u : Unit {0}} → require_running b ≡ ok u → b ≡ true
is_running true h = refl
is_running false h = cc

-- A result means that Envoy was running and that the request that validation let through, a safe
-- one, was exchanged for the reply that the result reports.
pub execute_request-Sent :
    (world : World) (payload : Json) {result : Report}
    → execute_request world payload ≡ ok result
    → (world.envoy_running ≡ true) × Sent world payload result
unfolding execute_request
execute_request-Sent world payload {result} e₀ =
    let (_, running, e₁) = >>=-eq-ok (require_running world.envoy_running) _ e₀ in
    let (r, validated, e₂) = >>=-eq-ok (validate_request world.upper payload) _ e₁ in
    let (reply, exchanged, e₃) = >>=-eq-ok (world.exchange (outgoing world r)) _ e₂ in
    let (entry, awaited, e₄) =
      >>=-eq-ok (wait_for_access_entry world.request_id world.polls) _ e₃ in
    (
      is_running world.envoy_running running,
      record {
        request = r;
        reply = reply;
        entry = entry;
        validated = validated;
        safe = validate_request-IsSafe world.upper payload validated;
        exchanged = exchanged;
        awaited = awaited;
        reported = ok-injective e₄;
      },
    )

-- The headers that are sent for a safe request name the lab as the host and carry the fresh
-- request id, and a header of the request, any of them, is among them with the request's value.
pub outgoing_lem :
    (world : World) (r : Request) (name value : Str)
    → IsSafe r
    → get name r.headers ≡ some value
    → (get (codes "host") (outgoing world r).headers ≡ some (codes "lab.local"))
      × (get (codes "x-owasp-lab-id") (outgoing world r).headers ≡ some world.request_id)
      × (get name (outgoing world r).headers ≡ some value)
unfolding outgoing
outgoing_lem world r name value safe given =
    let (host, id) = outgoing_managed r.headers world.request_id r.body in
    let free = (get-IsSafeHeader r.headers name value safe.safe_headers given).not_managed in
    (host, id, outgoing_forwarded r.headers world.request_id r.body name value free given)
