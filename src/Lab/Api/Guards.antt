-- ===== src/Lab/Api/Guards.antt =====
-- What the handler of `POST /api/test` (tools/owasp-crs-lab.py) has checked when it answers.
use envoy_modsecurity.Prelude.{
  ℕ, ◌≤◌, ◌≡◌, ◌≢◌, refl, ◌∙◌, inl, inr, true, [], Option, some, arith, nat_eq, list_eq,
  Option-cases, beq_refl, ap,
}
use envoy_modsecurity.Prelude.Lists.{any}
use envoy_modsecurity.Prelude.Dicts.{Dict}
use envoy_modsecurity.Prelude.Text.{Str, codes, str_beq_iff}
use envoy_modsecurity.Prelude.Bytes.{encode_utf8, is_surrogate}
use envoy_modsecurity.Prelude.Int.{ℤ, pos, negsuc}
use envoy_modsecurity.Prelude.Json.{Json, text, object, Fields, items}
use envoy_modsecurity.Lab.Errors.{
  Result, ok, err, ◌>>=◌, >>=-eq-ok, unicode_encode_error, type_error, user_input, decode_error,
  transport_error, runtime_error,
}
use envoy_modsecurity.Lab.Request.{
  validate_request, method_field, path_field, headers_field, body_field, payload_field,
}
use envoy_modsecurity.Lab.Execute.{World, Report, execute_request}
use envoy_modsecurity.Lab.Execute.Answered.{Sent, execute_request-Sent}
use envoy_modsecurity.Lab.Api.{
  Post, Body, result, answered, unanswered, header_or, is_ascii, compare_digest, max_api_bytes,
  accepted_length, handle_result, post_authorised, do_post,
}

handle_result-200 :
    (r : Result Report) {body : Body}
    → handle_result r ≡ answered 200 body
    → (report : Report) × (r ≡ ok report) × (body ≡ result report)
unfolding handle_result
handle_result-200 (ok report) h = (report, refl, ground arith)
handle_result-200 (err decode_error) h = absurd (ground arith)
handle_result-200 (err (user_input e)) h = absurd (ground arith)
handle_result-200 (err transport_error) h = absurd (ground arith)
handle_result-200 (err runtime_error) h = absurd (ground arith)
handle_result-200 (err unicode_encode_error) h = absurd (ground arith)
handle_result-200 (err type_error) h = absurd (ground arith)

accepted_length_inv :
    (n : ℤ) {size : ℕ}
    → accepted_length n ≡ some size
    → (n ≡ pos size) × (1 ≤ size) × (size ≤ max_api_bytes)
accepted_length_inv (pos n) h = ground arith
accepted_length_inv (negsuc n) h = absurd (ground arith)

validate_request_surrogate :
    (upper : Str → Str) (fields : Fields) (body m p : Str) (h : Dict Str Json)
    → method_field upper (items fields) ≡ ok m
    → path_field (items fields) ≡ ok p
    → headers_field (items fields) ≡ ok h
    → payload_field (items fields) (codes "body") (text []) ≡ text body
    → any is_surrogate body ≡ true
    → validate_request upper (object fields) ≡ err unicode_encode_error
unfolding validate_request body_field encode_utf8
validate_request_surrogate upper fields body m p h em ep eh eb s = rw (em, ep, eh, eb, s)

module _ (token : Str) (to_int : Str → Option ℤ) where
  -- A POST whose token header is not the token is answered in the same way whatever the state of
  -- Envoy, its replies and its logs are.
  pub do_post_needs_token :
      (w w' : World) (post : Post)
      → header_or [] post.token_header ≢ token
      → do_post token to_int w post ≡ do_post token to_int w' post
  unfolding do_post compare_digest
  do_post_needs_token w w' post h =
      ground (arith, str_beq_iff (header_or [] post.token_header) token)

  do_post_inv :
      (world : World) (post : Post) {body : Body}
      → do_post token to_int world post ≡ answered 200 body
      → (post.path ≡ codes "/api/test")
        × (header_or [] post.token_header ≡ token)
        × (post_authorised token to_int world post ≡ answered 200 body)
  unfolding do_post compare_digest
  do_post_inv world post e = ground (
    arith,
    str_beq_iff post.path (codes "/api/test"),
    str_beq_iff (header_or [] post.token_header) token,
  )

  post_authorised_inv :
      (world : World) (post : Post) {body : Body}
      → post_authorised token to_int world post ≡ answered 200 body
      → (size : ℕ) × (to_int (header_or (codes "0") post.length_header) ≡ some (pos size))
        × (1 ≤ size)
        × (size ≤ max_api_bytes)
        × (handle_result (post.load size >>= execute_request world) ≡ answered 200 body)
  unfolding post_authorised
  post_authorised_inv world post {body} e =
      elim (Option-cases (to_int (header_or (codes "0") post.length_header))) [
        | inl no_int ↦ absurd (ground arith)
        | inr (n, is_int) ↦ elim (Option-cases (accepted_length n)) [
          | inl bad ↦ absurd (ground arith)
          | inr (size, good) ↦
              let (is_pos, not_empty, bounded) = accepted_length_inv n good in
              (size, is_int ∙ ap some is_pos, not_empty, bounded, ground arith)
        ]
      ]

  -- What a POST has shown when it is answered with status 200.
  pub record Authorised (world : World) (post : Post) (report : Report) : Type 0 where
    pub size : ℕ
    pub payload : Json
    pub path : post.path ≡ codes "/api/test"
    pub token_matches : header_or [] post.token_header ≡ token
    pub declared : to_int (header_or (codes "0") post.length_header) ≡ some (pos size)
    pub not_empty : 1 ≤ size
    pub bounded : size ≤ max_api_bytes
    pub loaded : post.load size ≡ ok payload
    pub running : world.envoy_running ≡ true
    pub sent : Sent world payload report

  -- Status 200 is answered to a POST only if its path is the API's, it carries the token and it
  -- declares a size from 1 byte to 2 MiB, its payload was loaded and validated and the request
  -- exchanged with a running Envoy; the answer's body is the report on that exchange.
  pub do_post-Authorised :
      (world : World) (post : Post) {body : Body}
      → do_post token to_int world post ≡ answered 200 body
      → (report : Report) × (body ≡ result report) × Authorised world post report
  do_post-Authorised world post {body} e =
      let (path, token_matches, authorised) = do_post_inv world post e in
      let (size, declared, not_empty, bounded, handled) =
        post_authorised_inv world post authorised in
      let (report, completed, is_body) = handle_result-200 _ handled in
      let (payload, loaded, executed) = >>=-eq-ok (post.load size) _ completed in
      let (running, sent) = execute_request-Sent world payload executed in
      (
        report,
        is_body,
        record {
          size = size;
          payload = payload;
          path = path;
          token_matches = token_matches;
          declared = declared;
          not_empty = not_empty;
          bounded = bounded;
          loaded = loaded;
          running = running;
          sent = sent;
        },
      )

  do_post_api :
      (world : World) (post : Post)
      → post.path ≡ codes "/api/test"
      → header_or [] post.token_header ≡ token
      → is_ascii token ≡ true
      → do_post token to_int world post ≡ post_authorised token to_int world post
  unfolding do_post compare_digest
  do_post_api world post path matches ascii =
      simp (path, beq_refl (codes "/api/test"), matches, ascii, beq_refl token)

  post_authorised_api :
      (world : World) (post : Post) (size : ℕ) (payload : Json)
      → to_int (header_or (codes "0") post.length_header) ≡ some (pos size)
      → 1 ≤ size
      → size ≤ max_api_bytes
      → post.load size ≡ ok payload
      → post_authorised token to_int world post ≡ handle_result (execute_request world payload)
  unfolding post_authorised
  post_authorised_api world post size payload declared some_bytes few_bytes loaded = ground arith

  execute_surrogate :
      (world : World) (payload : Json)
      → world.envoy_running ≡ true
      → validate_request world.upper payload ≡ err unicode_encode_error
      → handle_result (execute_request world payload) ≡ unanswered unicode_encode_error
  unfolding execute_request handle_result
  execute_surrogate world payload running refused = rw (running, refused)

  -- An authorised POST whose loaded payload has a body with a lone surrogate, and whose method,
  -- path and headers pass their checks, gets no answer while Envoy runs: the encoding error
  -- leaves the handler.
  pub do_post_surrogate :
      (world : World) (post : Post) (size : ℕ) (fields : Fields) (body : Str)
      → post.path ≡ codes "/api/test"
      → header_or [] post.token_header ≡ token
      → is_ascii token ≡ true
      → to_int (header_or (codes "0") post.length_header) ≡ some (pos size)
      → 1 ≤ size
      → size ≤ max_api_bytes
      → post.load size ≡ ok (object fields)
      → world.envoy_running ≡ true
      → (m p : Str) (h : Dict Str Json) → method_field world.upper (items fields) ≡ ok m
      → path_field (items fields) ≡ ok p
      → headers_field (items fields) ≡ ok h
      → payload_field (items fields) (codes "body") (text []) ≡ text body
      → any is_surrogate body ≡ true
      → do_post token to_int world post ≡ unanswered unicode_encode_error
  do_post_surrogate world post size fields body path matches ascii declared some_bytes few_bytes
        loaded running m p h em ep eh eb s =
      let refused = validate_request_surrogate world.upper fields body m p h em ep eh eb s in
      do_post_api world post path matches ascii
      ∙ post_authorised_api world post size (object fields) declared some_bytes few_bytes loaded
      ∙ execute_surrogate world (object fields) running refused
