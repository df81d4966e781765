-- ===== src/Lab/Upstream/Reached.antt =====
-- Validation, Envoy and the echo upstream together: what `upstream_reached` says of a request that
-- tools/owasp-crs-lab.py has sent.
use envoy_modsecurity.Prelude.{
  ℕ, ◌≡◌, ◌≢◌, refl, ◌∙◌, sym, ap, subst, Bool, true, false, List, [], ◌∷◌, ◌++◌, Option, none,
  some, Mem, arith, if◌then◌else◌, nat_eq, list_eq, Option-cases, inl, inr,
}
use envoy_modsecurity.Prelude.Equality.{list_beq}
use envoy_modsecurity.Prelude.Lists.{contains, contains_of_mem}
use envoy_modsecurity.Prelude.Text.{Str, codes, join, ascii_lower}
use envoy_modsecurity.Prelude.Int.{ℤ, is_zero}
use envoy_modsecurity.Prelude.Json.{Json}
use envoy_modsecurity.Lab.Errors.{Result, ok}
use envoy_modsecurity.Lab.Request.{Request, allowed_methods, validate_request}
use envoy_modsecurity.Lab.Execute.{
  World, Reply, Report, header_values, upstream_marked, report, outgoing, execute_request,
}
use envoy_modsecurity.Lab.Execute.Answered.{execute_request-Sent}
use envoy_modsecurity.Lab.Upstream.{
  Received, declared_length, do_method, upstream_mark, echo, response, respond, handle,
}

-- Envoy between the lab and the upstream: the reply that it gives by itself, what it forwards where
-- it gives none, what it makes of the upstream's reply, and its reply where the upstream closes the
-- connection with none.
pub record Proxy : Type 0 where
  pub local : Request → Option Reply
  pub forward : Request → Received
  pub returned : Reply → Reply
  pub reset : Reply

abbrev pub is_forwarded {ℓ} : {A : Type ℓ} → Option A → Bool
is_forwarded none = true
is_forwarded (some a) = false

-- No header of the reply has the name of the upstream's mark.
abbrev pub IsUnmarked : List (Str × Str) → Type 0
IsUnmarked headers = header_values upstream_mark headers ≡ []

-- What the lab relies on: Envoy's own replies are unmarked, and it keeps the method and the mark and
-- sends a length that `int` reads.
pub record IsTransparent (to_int : Str → Option ℤ) (proxy : Proxy) : Type 0 where
  pub local_unmarked :
      (q : Request) (reply : Reply) → proxy.local q ≡ some reply → IsUnmarked reply.headers
  pub keeps_method : (q : Request) → (proxy.forward q).method ≡ q.method
  pub sends_length : (q : Request) → to_int (declared_length (proxy.forward q)) ≢ none
  pub keeps_mark :
      (reply : Reply)
      → header_values upstream_mark (proxy.returned reply).headers
        ≡ header_values upstream_mark reply.headers

header_values-append :
    (name : Str) (xs ys : List (Str × Str))
    → header_values name (xs ++ ys) ≡ header_values name xs ++ header_values name ys
unfolding header_values
header_values-append name [] ys = refl
header_values-append name ((k, v) ∷ xs) ys = ground (arith, header_values-append name xs ys)

-- Every method that validation lets through has a handler.
do_method_allowed : (method : Str) → Mem method allowed_methods → do_method method ≢ none
unfolding do_method contains
do_method_allowed method m = ground (arith, contains_of_mem allowed_methods method m)

unmarked : (reply : Reply) → IsUnmarked reply.headers → upstream_marked reply ≡ false
unfolding upstream_marked
unmarked reply h = ground arith

marked :
    (reply : Reply)
    → header_values upstream_mark reply.headers ≡ codes "reached" ∷ []
    → upstream_marked reply ≡ true
unfolding upstream_marked join list_beq
marked reply h = ground arith

module _ (to_int : Str → Option ℤ) (decode : List ℕ → Str) (dumps : Json → List ℕ)
    (standard : List (Str × Str)) (unsupported : Reply) where
  -- The exchange of a request over HTTP, through Envoy.
  unfoldable pub exchange_through : Proxy → Request → Result Reply
  exchange_through proxy q = elim (proxy.local q) [
    | some reply ↦ ok reply
    | none ↦ elim (handle to_int decode dumps standard unsupported (proxy.forward q)) [
      | none ↦ ok proxy.reset
      | some reply ↦ ok (proxy.returned reply)
    ]
  ]

  response_marked :
      (body : List ℕ) (send_body : Bool)
      → IsUnmarked standard
      → header_values upstream_mark
          (response to_int decode dumps standard unsupported body send_body).headers
        ≡ codes "reached" ∷ []
  unfolding response header_values list_beq ascii_lower
  response_marked body send_body u =
      header_values-append upstream_mark standard _ ∙ ap (◌++ (codes "reached" ∷ [])) u

  handle_marked :
      (q : Received)
      → IsUnmarked standard
      → do_method q.method ≢ none
      → to_int (declared_length q) ≢ none
      → (reply : Reply) × (handle to_int decode dumps standard unsupported q ≡ some reply)
        × (header_values upstream_mark reply.headers ≡ codes "reached" ∷ [])
  unfolding handle respond
  handle_marked q u has h = elim (Option-cases (do_method q.method)) [
    | inl unknown ↦ absurd (has unknown)
    | inr (send_body, known) ↦ elim (Option-cases (to_int (declared_length q))) [
      | inl unread ↦ absurd (h unread)
      | inr (n, read) ↦
          let body = dumps (
            echo to_int decode dumps standard unsupported q (if is_zero n then [] else q.read n)) in
          (
            response to_int decode dumps standard unsupported body send_body,
            ground arith,
            response_marked body send_body u,
          )
    ]
  ]

  exchange_reached :
      (proxy : Proxy) (q : Request) {reply : Reply}
      → IsTransparent to_int proxy
      → IsUnmarked standard
      → Mem q.method allowed_methods
      → exchange_through proxy q ≡ ok reply
      → upstream_marked reply ≡ is_forwarded (proxy.local q)
  unfolding exchange_through
  exchange_reached proxy q {reply} t u m e = elim (Option-cases (proxy.local q)) [
    | inr (own, replied) ↦
        let same : own ≡ reply = ground arith in
        rw replied (
          unmarked reply
            (subst (λ (r : Reply). IsUnmarked r.headers) same (t.local_unmarked q own replied)))
    | inl forwarded ↦
        let (sent, answered, mark) =
          handle_marked (proxy.forward q) u
            (subst (λ m'. do_method m' ≢ none) (sym (t.keeps_method q))
              (do_method_allowed q.method m))
            (t.sends_length q) in
        let same : proxy.returned sent ≡ reply = ground arith in
        rw forwarded (
          marked reply (
            subst (λ (r : Reply). header_values upstream_mark r.headers ≡ codes "reached" ∷ []) same
              (t.keeps_mark sent ∙ mark)))
  ]

  -- A result of execute_request on a payload reports the upstream as reached exactly when Envoy
  -- has given no reply by itself to the request that was sent: the method that validation lets
  -- through has a handler of the echo upstream, which marks its response. Envoy's own replies do
  -- not carry the mark, and Envoy keeps the method and the mark and sends a length that can be
  -- read.
  pub execute_request_reached :
      (proxy : Proxy) (world : World) (payload : Json) {result : Report}
      → IsTransparent to_int proxy
      → IsUnmarked standard
      → world.exchange ≡ exchange_through proxy
      → execute_request world payload ≡ ok result
      → (q : Request) × (validate_request world.upper payload ≡ ok q)
        × (result.upstream_reached ≡ is_forwarded (proxy.local (outgoing world q)))
  unfolding report outgoing
  execute_request_reached proxy world payload t u through done =
      let (_, s) = execute_request-Sent world payload done in
      let exchanged =
        ap (λ (f : Request → Result Reply). f (outgoing world s.request)) (sym through)
        ∙ s.exchanged in
      (
        s.request,
        s.validated,
        ap (λ (r : Report). r.upstream_reached) (sym s.reported)
            ∙ exchange_reached proxy (outgoing world s.request) t u s.safe.method_allowed exchanged,
      )
