-- ===== src/Lab/Concurrent/Tests.antt =====
-- Two overlapping calls of `LabRuntime.execute_request` (tools/owasp-crs-lab.py).
use envoy_modsecurity.Prelude.{ℕ, ◌≡◌, refl, sym, ap, true, [], ◌∷◌, some, Mem, nat_eq, list_eq}
use mathlib.Core.List.{reverse}
use envoy_modsecurity.Prelude.Equality.{list_beq}
use envoy_modsecurity.Prelude.Lists.{contains}
use envoy_modsecurity.Prelude.Dicts.{get}
use envoy_modsecurity.Prelude.Text.{Str, codes, starts_with}
use envoy_modsecurity.Prelude.Bytes.{encode_utf8, utf8}
use envoy_modsecurity.Prelude.Json.{text, object, Fields, field, end, items}
use envoy_modsecurity.Lab.Errors.{ok, reject}
use envoy_modsecurity.Lab.Request.{
  Request, validate_request, validate_headers, method_field, path_field, headers_field, body_field,
  is_path, has_line_break,
}
use envoy_modsecurity.Lab.Outgoing.{outgoing_managed}
use envoy_modsecurity.Lab.Execute.{Reply}
use envoy_modsecurity.Lab.Access.{find_entry}
use envoy_modsecurity.Lab.Concurrent.{
  Shared, sending, waiting, returned, logged, move, fresh, with_id, copied_id, set_at, read_lines,
  begin, receive, answer, write_entry, find, Reach, here, next,
}
use envoy_modsecurity.Lab.Concurrent.Own.{own, AreDistinct}
use envoy_modsecurity.Lab.Concurrent.Spec.{Runs, nothing_yet}
use envoy_modsecurity.Lab.Concurrent.Refines.{view, Reach-Runs, returned_own}

abbrev sample_id : ℕ → Str
sample_id i = i ∷ []

sample_id-AreDistinct : AreDistinct sample_id
sample_id-AreDistinct i k h = cc

abbrev same : Str → Str
same s = s

abbrev plain_request : Request
plain_request = record { method = codes "GET"; path = codes "/"; headers = []; body = [] }

plain_valid : validate_request same (object end) ≡ ok plain_request
unfolding validate_request validate_headers method_field path_field headers_field body_field is_path
    has_line_break contains list_beq starts_with encode_utf8 utf8 reject get
plain_valid = refl

abbrev sample_reply : Reply
sample_reply = record { status = 403; reason = codes "Forbidden"; headers = []; body = [] }

abbrev entry_fields : ℕ → Fields
entry_fields i = field (codes "request_id") (text (sample_id i)) end

abbrev both_sent : Shared
both_sent =
    record (move 1 (sending (with_id (sample_id 1) plain_request))
      (move 0 (sending (with_id (sample_id 0) plain_request)) fresh)) {
        sent =
            set_at 0 (some (with_id (sample_id 0) plain_request))
              (set_at 1 (some (with_id (sample_id 1) plain_request)) fresh.sent);
      }

abbrev both_logged : Shared
both_logged =
    record (move 1 (waiting (with_id (sample_id 1) plain_request) sample_reply) both_sent) {
      log = logged 1 (entry_fields 1) ∷ logged 0 (entry_fields 0) ∷ [];
    }

abbrev one_returned : Shared
one_returned = move 1 (returned sample_reply (some (items (entry_fields 1)))) both_logged

entry_id :
    (i : ℕ)
    → get (codes "request_id") (items (entry_fields i))
      ≡ copied_id (get (codes "x-owasp-lab-id") (with_id (sample_id i) plain_request).headers)
unfolding get list_beq with_id
entry_id i = ap copied_id (sym (outgoing_managed [] (sample_id i) []).1)

one_found :
    find_entry (sample_id 1) (reverse (read_lines (logged 1 (entry_fields 1) ∷ []) true))
    ≡ some (items (entry_fields 1))
unfolding find_entry get list_beq
one_found = refl

-- Both calls are sent and logged before the first of them looks into the log.
sample_run : Reach same sample_id fresh one_returned
sample_run =
    next
      (next
        (next
          (next
            (next
              (next
                (next (next here (begin _ 0 (object end) plain_request refl plain_valid))
                  (begin _ 1 (object end) plain_request refl plain_valid))
                (receive _ 1 (with_id (sample_id 1) plain_request) refl))
              (receive _ 0 (with_id (sample_id 0) plain_request) refl))
            (answer _ 1 (with_id (sample_id 1) plain_request) sample_reply refl))
          (write_entry _ 1 (with_id (sample_id 1) plain_request) (entry_fields 1) refl
            (entry_id 1)))
        (write_entry _ 0 (with_id (sample_id 0) plain_request) (entry_fields 0) refl (entry_id 0)))
      (find _ 1 (with_id (sample_id 1) plain_request) sample_reply (logged 1 (entry_fields 1) ∷ [])
        (logged 0 (entry_fields 0) ∷ []) true (items (entry_fields 1)) refl refl one_found)

Reach-Runs_example : Runs nothing_yet (view one_returned)
Reach-Runs_example = Reach-Runs same sample_id sample_id-AreDistinct sample_run

returned_own_example : Mem (items (entry_fields 1)) (own 1 one_returned.log)
returned_own_example =
    returned_own same sample_id 1 sample_reply (items (entry_fields 1)) sample_id-AreDistinct
      sample_run refl
