-- ===== src/Lab/Concurrent.antt =====
-- `LabHttpServer` of tools/owasp-crs-lab.py runs a thread for each connection, so calls of
-- `LabRuntime.execute_request` overlap and share Envoy's access log. A call is numbered; `id i` is
-- the `uuid.uuid4().hex` that call i draws.
pub mod Own
pub mod Spec
pub mod Refines
mod Tests
use envoy_modsecurity.Prelude.{
  ℕ, ◌≡◌, Bool, true, false, List, [], ◌∷◌, ◌++◌, Option, none, some, if◌then◌else◌, ◌==◌, nat_eq,
  list_eq,
}
use mathlib.Core.List.{reverse}
use envoy_modsecurity.Prelude.Dicts.{Dict, get}
use envoy_modsecurity.Prelude.Text.{Str, codes}
use envoy_modsecurity.Prelude.Json.{Json, text, object, Fields, items}
use envoy_modsecurity.Lab.Errors.{Exception, Result, ok, err, runtime_error}
use envoy_modsecurity.Lab.Request.{Request, validate_request}
use envoy_modsecurity.Lab.Outgoing.{outgoing_headers}
use envoy_modsecurity.Lab.Execute.{Reply}
use envoy_modsecurity.Lab.Access.{find_entry, entry_for}

-- Where a call stands: before it, in `connection.request`, in the wait for the access log, or at its
-- end, with the entry that the wait has given or with an exception.
pub data Phase : Type 0 where
  idle : Phase
  sending : Request → Phase
  waiting : Request → Reply → Phase
  returned : Reply → Option (Dict Str Json) → Phase
  raised : Exception → Phase

-- A line of the log: the entry that Envoy writes for the request of a call, or any other text, as
-- `json.loads` reads it, `none` where it is no JSON.
pub data Line : Type 0 where
  logged : ℕ → Fields → Line
  foreign : Option Json → Line

-- What the calls share and where each stands. `sent` is what Envoy has received of a call.
pub record Shared : Type 0 where
  pub phase : ℕ → Phase
  pub sent : ℕ → Option Request
  pub log : List Line

abbrev pub set_at {ℓ} : {A : Type ℓ} → ℕ → A → (ℕ → A) → ℕ → A
set_at i a f k = if k == i then a else f k

abbrev pub move : ℕ → Phase → Shared → Shared
move i p s = record s { phase = set_at i p s.phase }

-- The log before the first call.
abbrev pub fresh : Shared
fresh = record { phase = λ i. idle; sent = λ i. none; log = [] }

abbrev pub line_json : Line → Option Json
line_json (logged i fs) = some (object fs)
line_json (foreign j) = j

-- What a reading of the file finds: the lines that were there, and the beginning of one that was
-- being written, which is no JSON.
abbrev pub read_lines : List Line → (torn : Bool) → List (Option Json)
read_lines [] torn = if torn then none ∷ [] else []
read_lines (line ∷ lines) torn = line_json line ∷ read_lines lines torn

-- `x-owasp-lab-id` as the access log's format copies it.
abbrev pub copied_id : Option Str → Option Json
copied_id none = none
copied_id (some s) = some (text s)

-- The request of a call with its headers.
unfoldable pub with_id : Str → Request → Request
with_id request_id q = record q { headers = outgoing_headers q.headers request_id q.body }

module _ (upper : Str → Str) (id : ℕ → Str) where
  pub data Transition : Shared → Shared → Type 0 where
    -- Envoy does not run when the call begins.
    not_running :
        (s : Shared) (i : ℕ) → s.phase i ≡ idle → Transition s (move i (raised runtime_error) s)
    -- The checks on the payload, and the exception that they raise.
    begin :
        (s : Shared) (i : ℕ) (payload : Json) (q : Request)
        → s.phase i ≡ idle
        → validate_request upper payload ≡ ok q
        → Transition s (move i (sending (with_id (id i) q)) s)
    refuse :
        (s : Shared) (i : ℕ) (payload : Json) (e : Exception)
        → s.phase i ≡ idle
        → validate_request upper payload ≡ err e
        → Transition s (move i (raised e) s)
    -- Envoy receives the request, answers it, and writes its entry, in any order of the two.
    receive :
        (s : Shared) (i : ℕ) (q : Request)
        → s.phase i ≡ sending q
        → Transition s (record s { sent = set_at i (some q) s.sent })
    answer :
        (s : Shared) (i : ℕ) (q : Request) (reply : Reply)
        → s.phase i ≡ sending q
        → Transition s (move i (waiting q reply) s)
    lose :
        (s : Shared) (i : ℕ) (q : Request) (e : Exception)
        → s.phase i ≡ sending q
        → Transition s (move i (raised e) s)
    write_entry :
        (s : Shared) (i : ℕ) (q : Request) (fs : Fields)
        → s.sent i ≡ some q
        → get (codes "request_id") (items fs) ≡ copied_id (get (codes "x-owasp-lab-id") q.headers)
        → Transition s (record s { log = s.log ++ logged i fs ∷ [] })
    -- Other lines, of requests with no call's id and of Envoy itself.
    write_other :
        (s : Shared) (j : Option Json)
        → ((k : ℕ) → entry_for (id k) j ≡ none)
        → Transition s (record s { log = s.log ++ foreign j ∷ [] })
    -- A round of the wait that finds an entry in what it reads of the log, the deadline, and a round
    -- after Envoy's exit.
    find :
        (s : Shared) (i : ℕ) (q : Request) (reply : Reply) (seen rest : List Line) (torn : Bool)
        (entry : Dict Str Json)
        → s.phase i ≡ waiting q reply
        → s.log ≡ seen ++ rest
        → find_entry (id i) (reverse (read_lines seen torn)) ≡ some entry
        → Transition s (move i (returned reply (some entry)) s)
    expire :
        (s : Shared) (i : ℕ) (q : Request) (reply : Reply)
        → s.phase i ≡ waiting q reply
        → Transition s (move i (returned reply none) s)
    exit :
        (s : Shared) (i : ℕ) (q : Request) (reply : Reply)
        → s.phase i ≡ waiting q reply
        → Transition s (move i (raised runtime_error) s)

  pub data Reach (s : Shared) : Shared → Type 0 where
    here : Reach s s
    next : {t u : Shared} → Reach s t → Transition t u → Reach s u
