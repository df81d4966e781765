-- ===== src/Lab/Access.antt =====
-- `LabRuntime._wait_for_access_entry` of tools/owasp-crs-lab.py: the access log is polled for the
-- entry of a request until the deadline. `polls` are the rounds that begin before it.
pub mod Clock
mod Tests
use envoy_modsecurity.Prelude.{
  ◌≡◌, Bool, true, false, List, [], ◌∷◌, Option, none, some, arith, if◌then◌else◌, ◌==◌, nat_eq,
  list_eq, Bool-cases, Option-cases, inl, inr,
}
use mathlib.Core.List.{reverse}
use envoy_modsecurity.Prelude.Lists.{any, all, any-reverse}
use envoy_modsecurity.Prelude.Dicts.{Dict, get}
use envoy_modsecurity.Prelude.Text.{Str, codes, str_beq_iff}
use envoy_modsecurity.Prelude.Json.{Json, text, object, items}
use envoy_modsecurity.Lab.Errors.{Result, ok, err, runtime_error}

-- One round: whether Envoy still runs, and the decoded lines of its log, `none` where a line is no
-- JSON.
pub record Poll : Type 0 where
  pub running : Bool
  pub lines : List (Option Json)

abbrev pub text_is : Option Json → Str → Bool
text_is (some (text s)) t = s == t
text_is _ t = false

-- `isinstance(entry, dict) and entry.get("request_id") == request_id`, with the entry.
abbrev pub entry_for : Str → Option Json → Option (Dict Str Json)
entry_for request_id (some (object fs)) =
    if text_is (get (codes "request_id") (items fs)) request_id then some (items fs) else none
entry_for request_id _ = none

-- The loop over the reversed lines.
unfoldable pub find_entry : Str → List (Option Json) → Option (Dict Str Json)
find_entry request_id [] = none
find_entry request_id (line ∷ rest) = elim (entry_for request_id line) [
  | some entry ↦ some entry
  | none ↦ find_entry request_id rest
]

unfoldable pub wait_for_access_entry : Str → List Poll → Result (Option (Dict Str Json))
wait_for_access_entry request_id [] = ok none
wait_for_access_entry request_id (poll ∷ polls) =
    let rest = wait_for_access_entry request_id polls in
    if poll.running
    then elim (find_entry request_id (reverse poll.lines)) [
      | some entry ↦ ok (some entry)
      | none ↦ rest
    ]
    else err runtime_error

text_is-some : (o : Option Json) (t : Str) → text_is o t ≡ true → o ≡ some (text t)
text_is-some (some (text s)) t h = rw ((str_beq_iff s t).0 h)
text_is-some o t h = cc

pub entry_for-id :
    (request_id : Str) (line : Option Json) {entry : Dict Str Json}
    → entry_for request_id line ≡ some entry
    → get (codes "request_id") entry ≡ some (text request_id)
entry_for-id request_id (some (object fs)) {entry} h =
    elim (Bool-cases (text_is (get (codes "request_id") (items fs)) request_id)) [
      | inl same ↦
          let is_entry : items fs ≡ entry = ground arith in
          rw (← is_entry) (text_is-some _ request_id same)
      | inr other ↦ absurd (ground arith)
    ]
entry_for-id request_id line h = cc

find_entry-id :
    (request_id : Str) (lines : List (Option Json)) {entry : Dict Str Json}
    → find_entry request_id lines ≡ some entry
    → get (codes "request_id") entry ≡ some (text request_id)
unfolding find_entry
find_entry-id request_id [] h = cc
find_entry-id request_id (line ∷ rest) h = elim (Option-cases (entry_for request_id line)) [
  | inl other ↦ find_entry-id request_id rest (rw (other, find_entry) at h)
  | inr (e, found) ↦ entry_for-id request_id line (ground arith)
]

-- An access-log entry that is returned carries the request id that was waited for.
pub wait_for_access_entry-id :
    (request_id : Str) (polls : List Poll) {entry : Dict Str Json}
    → wait_for_access_entry request_id polls ≡ ok (some entry)
    → get (codes "request_id") entry ≡ some (text request_id)
unfolding wait_for_access_entry
wait_for_access_entry-id request_id [] h = absurd (ground arith)
wait_for_access_entry-id request_id (poll ∷ polls) {entry} h =
    elim (Option-cases (find_entry request_id (reverse poll.lines))) [
      | inl none_here ↦ wait_for_access_entry-id request_id polls (ground arith)
      | inr (e, found) ↦ find_entry-id request_id (reverse poll.lines) (ground arith)
    ]

-- A line of the log is an entry of the request.
abbrev pub is_entry : Str → Option Json → Bool
is_entry request_id line = elim (entry_for request_id line) [ none ↦ false | some e ↦ true ]

find_entry-some :
    (request_id : Str) (lines : List (Option Json))
    → any (is_entry request_id) lines ≡ true
    → (e : Dict Str Json) × (find_entry request_id lines ≡ some e)
unfolding any find_entry
find_entry-some request_id [] h = cc
find_entry-some request_id (line ∷ rest) h = elim (Option-cases (entry_for request_id line)) [
  | inl other ↦
      let (e, found) = find_entry-some request_id rest (rw (other, is_entry) at h) in
      (e, rw (other, find_entry) found)
  | inr (e, found) ↦ (e, rw (found, find_entry))
]

find_entry-none :
    (request_id : Str) (lines : List (Option Json))
    → find_entry request_id lines ≡ none
    → any (is_entry request_id) lines ≡ false
find_entry-none request_id lines h = elim (Bool-cases (any (is_entry request_id) lines)) [
  | inl some_line ↦
      let (e, found) = find_entry-some request_id lines some_line in absurd (ground arith)
  | inr quiet ↦ quiet
]

-- If Envoy runs in all rounds before the deadline and the log of some round has an entry of the
-- request, an entry is returned, whatever lines stand around it.
pub wait_for_access_entry_finds :
    (request_id : Str) (polls : List Poll)
    → all (λ p. p.running) polls ≡ true
    → any (λ p. any (is_entry request_id) p.lines) polls ≡ true
    → (e : Dict Str Json) × (wait_for_access_entry request_id polls ≡ ok (some e))
unfolding wait_for_access_entry any all
wait_for_access_entry_finds request_id [] r h = cc
wait_for_access_entry_finds request_id (poll ∷ polls) r h =
    elim (Option-cases (find_entry request_id (reverse poll.lines))) [
      | inl none_here ↦
          let quiet = find_entry-none request_id (reverse poll.lines) none_here in
          let (e, later) =
            wait_for_access_entry_finds request_id polls (ground arith)
              (ground (arith, any-reverse (is_entry request_id) poll.lines)) in
          (e, ground arith)
      | inr (e, found) ↦ (e, ground arith)
    ]
