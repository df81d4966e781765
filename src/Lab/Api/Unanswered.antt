-- ===== src/Lab/Api/Unanswered.antt =====
-- Which POST requests the handler (tools/owasp-crs-lab.py) leaves without an answer.
use envoy_modsecurity.Prelude.{
  ℕ, ◌≤◌, some, ◌≡◌, ◌⊎◌, Bool, true, ◌&&◌, [], Option, nat_eq, list_eq,
}
use envoy_modsecurity.Prelude.Text.{Str, codes}
use envoy_modsecurity.Prelude.Int.{ℤ, pos}
use envoy_modsecurity.Lab.Errors.{Exception, err, ◌>>=◌, type_error, unicode_encode_error}
use envoy_modsecurity.Lab.Execute.{World, execute_request}
use envoy_modsecurity.Lab.Api.{Post, max_api_bytes, header_or, is_ascii}

-- The exceptions that no clause of the handler names.
abbrev pub IsUncaught : Exception → Type 0
IsUncaught e = (e ≡ unicode_encode_error) ⊎ (e ≡ type_error)

module _ (token : Str) (to_int : Str → Option ℤ) (world : World) (post : Post) where
  abbrev token_text : Str
  token_text = header_or [] post.token_header

  abbrev length_text : Str
  length_text = header_or (codes "0") post.length_header

  -- Both texts that are compared are ASCII.
  abbrev pub both_ascii : Bool
  both_ascii = is_ascii token_text && is_ascii token

  -- The token and the declared length are right, and an exception that no clause names leaves the
  -- loading of that many bytes or the execution of the request.
  pub record IsLost (e : Exception) : Type 0 where
    pub ascii : both_ascii ≡ true
    pub matches : token_text ≡ token
    pub size : ℕ
    pub declared : to_int length_text ≡ some (pos size)
    pub some_bytes : 1 ≤ size
    pub few_bytes : size ≤ max_api_bytes
    pub lost : (post.load size >>= execute_request world) ≡ err e
    pub no_clause : IsUncaught e
