-- ===== src/Lab/Outgoing.antt =====
-- The headers of the request that `LabRuntime.execute_request` (tools/owasp-crs-lab.py) sends.
use envoy_modsecurity.Prelude.{
  ℕ, ◌≡◌, ◌∙◌, false, not, ◌&&◌, List, some, Mem, arith, if◌then◌else◌, nat_eq, list_eq, Bool-cases,
  inl, inr,
}
use envoy_modsecurity.Prelude.Lists.{is_empty, contains, mem_of_contains}
use envoy_modsecurity.Prelude.Dicts.{
  Dict, get, has_key, set_item, set_default, get-set_item, get-set_item_new, get-set_default_keep,
}
use envoy_modsecurity.Prelude.Equality.{list_beq}
use envoy_modsecurity.Prelude.Text.{Str, codes}
use envoy_modsecurity.Lab.Request.{disallowed_request_headers}

-- The lab's own headers, then the defaults for what the user left out.
unfoldable pub outgoing_headers : Dict Str Str → Str → List ℕ → Dict Str Str
outgoing_headers headers request_id body =
    let managed =
      set_item (codes "x-owasp-lab-id") request_id
        (set_item (codes "host") (codes "lab.local") headers) in
    let completed =
      set_default (codes "accept") (codes "application/json")
        (set_default (codes "user-agent") (codes "envoy-modsecurity-owasp-lab/1.0") managed) in
    if not (is_empty body) && not (has_key (codes "content-type") completed)
    then set_item (codes "content-type") (codes "text/plain; charset=utf-8") completed
    else completed

-- The headers before the content type is filled in.
module _ (headers : Dict Str Str) (request_id : Str) where
  managed : Dict Str Str
  managed =
      set_item (codes "x-owasp-lab-id") request_id
        (set_item (codes "host") (codes "lab.local") headers)

  completed : Dict Str Str
  completed =
      set_default (codes "accept") (codes "application/json")
        (set_default (codes "user-agent") (codes "envoy-modsecurity-owasp-lab/1.0") managed)

  completed_keep : (k : Str) {w : Str} → get k managed ≡ some w → get k completed ≡ some w
  unfolding completed
  completed_keep k h =
      get-set_default_keep (codes "accept") k _ _
        (get-set_default_keep (codes "user-agent") k _ _ h)

  outgoing_keep :
      (body : List ℕ) (k : Str) {w : Str}
      → get k managed ≡ some w
      → get k (outgoing_headers headers request_id body) ≡ some w
  unfolding outgoing_headers completed managed
  outgoing_keep body k h = elim (Bool-cases (has_key (codes "content-type") completed)) [
    | inl typed ↦ ground (arith, completed_keep k h)
    | inr untyped ↦
        let typed_keep =
          get-set_item_new (codes "content-type") k (codes "text/plain; charset=utf-8") completed
            untyped (completed_keep k h) in
        ground (arith, completed_keep k h, typed_keep)
  ]

  managed_host : get (codes "host") managed ≡ some (codes "lab.local")
  unfolding managed list_beq
  managed_host =
      get-set_item (codes "x-owasp-lab-id") (codes "host") request_id _
      ∙ get-set_item (codes "host") (codes "host") (codes "lab.local") headers

  managed_id : get (codes "x-owasp-lab-id") managed ≡ some request_id
  unfolding managed list_beq
  managed_id = get-set_item (codes "x-owasp-lab-id") (codes "x-owasp-lab-id") request_id _

  managed_other :
      (k : Str) → contains disallowed_request_headers k ≡ false → get k managed ≡ get k headers
  unfolding managed contains
  managed_other k h = ground (
    arith,
    get-set_item (codes "x-owasp-lab-id") k request_id
        (set_item (codes "host") (codes "lab.local") headers),
    get-set_item (codes "host") k (codes "lab.local") headers,
  )

not_contains : (xs : List Str) (k : Str) → ¬ Mem k xs → contains xs k ≡ false
not_contains xs k h = elim (Bool-cases (contains xs k)) [
  | inl inside ↦ absurd (h (mem_of_contains xs k inside))
  | inr outside ↦ outside
]

-- Whatever the user sent, the request names the lab as its host and carries the id by which its
-- access-log entry is found.
pub outgoing_managed :
    (headers : Dict Str Str) (request_id : Str) (body : List ℕ)
    → (get (codes "host") (outgoing_headers headers request_id body) ≡ some (codes "lab.local"))
      × (get (codes "x-owasp-lab-id") (outgoing_headers headers request_id body) ≡ some request_id)
outgoing_managed headers request_id body = (
  outgoing_keep headers request_id body (codes "host") (managed_host headers request_id),
  outgoing_keep headers request_id body (codes "x-owasp-lab-id") (managed_id headers request_id),
)

-- A header of the user that the lab does not manage is sent with the user's value.
pub outgoing_forwarded :
    (headers : Dict Str Str) (request_id : Str) (body : List ℕ) (name value : Str)
    → ¬ Mem name disallowed_request_headers
    → get name headers ≡ some value
    → get name (outgoing_headers headers request_id body) ≡ some value
outgoing_forwarded headers request_id body name value free given =
    outgoing_keep headers request_id body name (
      managed_other headers request_id name (not_contains disallowed_request_headers name free)
      ∙ given)
