-- ===== src/Lab/Page.antt =====
-- The script of HTML_PAGE in tools/owasp-crs-lab.py, the page that the web UI shows: how it reads the
-- headers of the form, what it shows of a result, and how requests, results and the history go on.
-- Texts are read as code points. The elements of the page that only show what is modelled are left
-- out. `upper` is `toUpperCase`.
pub mod Headers
pub mod Invariant
mod Tests
use envoy_modsecurity.Prelude.{
  ℕ, zero, suc, ◌+◌, ◌-◌, Bool, true, false, not, ◌&&◌, ◌||◌, List, [], ◌∷◌, ◌++◌, Option, none,
  some, ltb, leb, if◌then◌else◌, ◌==◌, nat_eq, list_eq,
}
use envoy_modsecurity.Prelude.Lists.{length, take, is_empty, get_elem?}
use envoy_modsecurity.Prelude.Dicts.{Dict, get, set_item}
use envoy_modsecurity.Prelude.Text.{Str, codes}
use envoy_modsecurity.Prelude.Split.{strip, split}
use envoy_modsecurity.Prelude.Json.{Json, null, text, object, items}
use envoy_modsecurity.Prelude.Split.{split_once}
use envoy_modsecurity.Lab.Execute.{Report}

-- White space and line terminators of JavaScript, which `trim` removes.
unfoldable pub is_js_space : ℕ → Bool
is_js_space c =
    (leb 0x09 c && leb c 0x0d)
    || c == 0x20
    || c == 0xa0
    || c == 0x1680
    || (leb 0x2000 c && leb c 0x200a)
    || c == 0x2028
    || c == 0x2029
    || c == 0x202f
    || c == 0x205f
    || c == 0x3000
    || c == 0xfeff

abbrev pub trim : Str → Str
trim s = strip is_js_space s

-- A line without the carriage return before its line feed.
unfoldable pub without_return : Str → Str
without_return [] = []
without_return (c ∷ s) =
    let rest = without_return s in if is_empty s && c == 0x0d then [] else c ∷ rest

-- `value.split(/\r?\n/)`, of the lines; the last one has no line feed.
unfoldable pub without_returns : List Str → List Str
unfolding without_return
without_returns [] = []
without_returns (line ∷ []) = line ∷ []
without_returns (line ∷ next ∷ lines) = without_return line ∷ without_returns (next ∷ lines)

-- `headers[name] = value` on a plain object, where `__proto__` takes no text.
abbrev pub assign : Str → Str → Dict Str Str → Dict Str Str
assign name value headers =
    if name == codes "__proto__" then headers else set_item name value headers

-- The headers of the form, or the line that an Error names.
pub data Parsed : Type 0 where
  headers : Dict Str Str → Parsed
  invalid_line : Str → Parsed

-- The loop of `parseHeaders`: a line needs a name before its first colon. The order of an object's
-- properties is not modelled where a name is a number.
unfoldable pub parse_lines : List Str → Dict Str Str → Parsed
unfolding split_once
parse_lines [] so_far = headers so_far
parse_lines (line ∷ lines) so_far =
    let skipped = parse_lines lines so_far in
    if is_empty (trim line) then skipped else elim (split_once b':' line) [
      | none ↦ invalid_line line
      | some (name, value) ↦
          let rest = parse_lines lines (assign (trim name) (trim value) so_far) in
          if is_empty name then invalid_line line else rest
    ]

unfoldable pub parse_headers : Str → Parsed
unfolding without_returns parse_lines split
parse_headers value = parse_lines (without_returns (split 0x0a value)) []

-- `event?.outcome`, where null and a missing property are the same to its uses.
abbrev pub outcome_of : Option Json → Option Json
outcome_of (some (object fs)) = elim (get (codes "outcome") (items fs)) [
  | none ↦ none
  | some null ↦ none
  | some outcome ↦ some outcome
]
outcome_of _ = none

abbrev pub is_blocked_text : Option Json → Bool
is_blocked_text (some (text s)) = s == codes "blocked"
is_blocked_text _ = false

-- `event?.outcome === "blocked" || result.response.status >= 400`
unfoldable pub blocked : Report → Bool
unfolding get
blocked result = is_blocked_text (outcome_of result.security_event) || leb 400 result.status

abbrev pub decision_of : Bool → Str
decision_of true = codes "BLOCKED"
decision_of false = codes "ALLOWED"

-- `event?.outcome?.toUpperCase() || (blocked ? "BLOCKED" : "ALLOWED")`; `none` is the TypeError of an
-- outcome that is no text.
abbrev pub decision_text : (Str → Str) → Option Json → Bool → Option Str
decision_text upper none is_blocked = some (decision_of is_blocked)
decision_text upper (some (text s)) is_blocked =
    some (if is_empty (upper s) then decision_of is_blocked else upper s)
decision_text upper (some outcome) is_blocked = none

-- What `renderResult` puts into the decision strip.
pub record Strip : Type 0 where
  pub decision : Str
  pub marked_blocked : Bool
  pub status : ℕ
  pub upstream : Str
  pub request_id : Str

abbrev pub upstream_text : Bool → Str
upstream_text true = codes "upstream reached"
upstream_text false = codes "upstream bypassed"

unfoldable pub render_result : (Str → Str) → Report → Option Strip
unfolding blocked
render_result upper result =
    elim (decision_text upper (outcome_of result.security_event) (blocked result)) [
      | none ↦ none
      | some decision ↦ some (record {
        decision = decision;
        marked_blocked = blocked result;
        status = result.status;
        upstream = upstream_text result.upstream_reached;
        request_id = take 12 result.request_id;
      })
    ]

-- The fields of the form.
pub record Form : Type 0 where
  pub method : Str
  pub path : Str
  pub headers : Str
  pub body : Str

pub record Entry : Type 0 where
  pub result : Report
  pub form : Form
  pub is_blocked : Bool

-- `unshift`, and `pop` where there are more than twelve.
unfoldable pub add_history : Report → Form → List Entry → List Entry
unfolding blocked
add_history result form history =
    let longer = record { result = result; form = form; is_blocked = blocked result } ∷ history in
    if ltb 12 (length longer) then take (length longer - 1) longer else longer

-- What the strip shows: nothing yet, a result, or an error with its message.
pub data Shown : Type 0 where
  not_run : Shown
  strip_of : Strip → Shown
  error : Str → Shown

-- The page, with the calls of `sendRequest` that wait for a reply.
pub record Page : Type 0 where
  pub form : Form
  pub shown : Shown
  pub history : List Entry
  pub disabled : Bool
  pub waiting : List Form

-- What a reply is to `sendRequest`: a result with status 200, or an Error with its message.
pub data FetchResult : Type 0 where
  result : Report → FetchResult
  failure : (message : Str) → FetchResult

-- A change of the form, by hand or by a preset, a click on the button, the shortcut, a click on an
-- entry of the history, and the reply to the call that waits at a place.
pub data Event : Type 0 where
  edit : Form → Event
  click shortcut : Event
  restore : ℕ → Event
  reply : ℕ → FetchResult → Event

abbrev pub shows_error : Str → Page → Page
shows_error message page = record page { shown = error message; disabled = false }

-- `sendRequest` up to its first `await`, or to its end where the headers raise.
unfoldable pub send_parsed : Parsed → Page → Page
send_parsed (invalid_line line) page = shows_error (codes "Invalid header line: " ++ line) page
send_parsed (headers sent) page = record page {
  disabled = true;
  waiting = page.form ∷ page.waiting;
}

unfoldable pub send_request : Page → Page
unfolding parse_headers send_parsed
send_request page = send_parsed (parse_headers page.form.headers) page

abbrev pub without {ℓ} : {A : Type ℓ} → ℕ → List A → List A
without i [] = []
without zero (x ∷ xs) = xs
without (suc i) (x ∷ xs) = x ∷ without i xs

module _ (upper : Str → Str) where
  -- `renderResult` and `addHistory` of a call that had read the form, or the TypeError.
  unfoldable pub receive_strip : Form → Report → Option Strip → Page → Page
  unfolding add_history
  receive_strip form r none page = shows_error (codes "outcome.toUpperCase is not a function") page
  receive_strip form r (some strip) page = record page {
    shown = strip_of strip;
    history = add_history r form page.history;
    disabled = false;
  }

  -- `sendRequest` from the reply on.
  unfoldable pub receive_reply : Form → FetchResult → Page → Page
  unfolding render_result receive_strip
  receive_reply form (failure message) page = shows_error message page
  receive_reply form (result r) page = receive_strip form r (render_result upper r) page

  -- The listener of an entry of the history. Where `renderResult` raises, nothing is shown.
  unfoldable pub restore_strip : Form → Option Strip → Page → Page
  restore_strip form none page = record page { form = form }
  restore_strip form (some strip) page = record page { form = form; shown = strip_of strip }

  unfoldable pub restore_entry : Option Entry → Page → Page
  unfolding render_result restore_strip
  restore_entry none page = page
  restore_entry (some entry) page = restore_strip entry.form (render_result upper entry.result) page

  -- The reply to a call that waits, which goes on.
  unfoldable pub reply_to : Option Form → ℕ → FetchResult → Page → Page
  unfolding receive_reply
  reply_to none i r page = page
  reply_to (some form) i r page =
      receive_reply form r (record page { waiting = without i page.waiting })

  unfoldable pub handle_event : Page → Event → Page
  unfolding send_request restore_entry reply_to
  handle_event page (edit form) = record page { form = form }
  handle_event page click = if page.disabled then page else send_request page
  handle_event page shortcut = send_request page
  handle_event page (restore i) = restore_entry (get_elem? page.history i) page
  handle_event page (reply i r) = reply_to (get_elem? page.waiting i) i r page

  unfoldable pub run_events : Page → List Event → Page
  unfolding handle_event
  run_events page [] = page
  run_events page (event ∷ events) = run_events (handle_event page event) events

-- The page as it is loaded_page.
abbrev pub loaded_page : Page
loaded_page = record {
  form = record {
    method = codes "GET";
    path = codes "/search?q=hello";
    headers = codes "Accept: application/json";
    body = [];
  };
  shown = not_run;
  history = [];
  disabled = false;
  waiting = [];
}
