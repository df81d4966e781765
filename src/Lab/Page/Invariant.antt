-- ===== src/Lab/Page/Invariant.antt =====
-- What holds of the page of tools/owasp-crs-lab.py after any events.
use envoy_modsecurity.Prelude.{
  ℕ, zero, suc, ◌-◌, ◌≤◌, ◌≡◌, refl, Bool, true, false, List, [], ◌∷◌, Option, none, some, arith,
  ltb, if◌then◌else◌,
}
use envoy_modsecurity.Prelude.Lists.{length, take, get_elem?}
use envoy_modsecurity.Prelude.Text.{Str}
use envoy_modsecurity.Lab.Execute.{Report}
use envoy_modsecurity.Lab.Page.{
  Form, Entry, Page, Event, FetchResult, edit, click, shortcut, restore, reply, result, failure,
  headers, invalid_line, parse_headers, blocked, add_history, render_result, Parsed, Strip,
  send_parsed, send_request, receive_reply, receive_strip, reply_to, restore_strip, restore_entry,
  handle_event, run_events, loaded_page,
}

-- The entries of the history are marked as their results say.
abbrev pub AreMarked : List Entry → Type 0
AreMarked [] = Unit
AreMarked (entry ∷ entries) = (entry.is_blocked ≡ blocked entry.result) × AreMarked entries

pub record IsSound (page : Page) : Type 0 where
  pub few : length page.history ≤ 12
  pub marked : AreMarked page.history
  pub usable : page.waiting ≡ [] → page.disabled ≡ false

either {ℓ κ} :
    {A : Type ℓ} (P : A → Type κ) (b : Bool) (x y : A) → P x → P y → P (if b then x else y)
either P true x y h k = h
either P false x y h k = k

take-AreMarked : (n : ℕ) (entries : List Entry) → AreMarked entries → AreMarked (take n entries)
take-AreMarked zero entries h = tt
take-AreMarked (suc n) [] h = tt
take-AreMarked (suc n) (entry ∷ entries) h = (h.0, take-AreMarked n entries h.1)

length-take-le : (n : ℕ) (entries : List Entry) → length (take n entries) ≤ n
length-take-le zero entries = omega arith
length-take-le (suc n) [] = omega arith
length-take-le (suc n) (entry ∷ entries) = omega (arith, length-take-le n entries)

add_history-few :
    (r : Report) (form : Form) (history : List Entry)
    → length history ≤ 12
    → length (add_history r form history) ≤ 12
unfolding add_history
add_history-few r form history h =
    let longer = record { result = r; form = form; is_blocked = blocked r } ∷ history in
    ground (arith, length-take-le (length longer - 1) longer)

add_history-AreMarked :
    (r : Report) (form : Form) (history : List Entry)
    → AreMarked history
    → AreMarked (add_history r form history)
unfolding add_history
add_history-AreMarked r form history h =
    let longer : List Entry =
      record { result = r; form = form; is_blocked = blocked r } ∷ history in
    either AreMarked (ltb 12 (length longer)) (take (length longer - 1) longer) longer
      (take-AreMarked (length longer - 1) longer (refl, h)) (refl, h)

send_parsed-IsSound :
    (parsed : Parsed) (page : Page) → IsSound page → IsSound (send_parsed parsed page)
unfolding send_parsed
send_parsed-IsSound (invalid_line line) page v = record {
  few = v.few;
  marked = v.marked;
  usable = λ e. refl;
}
send_parsed-IsSound (headers sent) page v = record {
  few = v.few;
  marked = v.marked;
  usable = λ e. absurd (ground arith);
}

send_request-IsSound : (page : Page) → IsSound page → IsSound (send_request page)
unfolding send_request
send_request-IsSound page v = send_parsed-IsSound (parse_headers page.form.headers) page v

module _ (upper : Str → Str) where
  receive_strip-IsSound :
      (form : Form) (r : Report) (strip : Option Strip) (page : Page)
      → length page.history ≤ 12
      → AreMarked page.history
      → IsSound (receive_strip upper form r strip page)
  unfolding receive_strip
  receive_strip-IsSound form r none page f m = record { few = f; marked = m; usable = λ e. refl }
  receive_strip-IsSound form r (some strip) page f m = record {
    few = add_history-few r form page.history f;
    marked = add_history-AreMarked r form page.history m;
    usable = λ e. refl;
  }

  reply_to-IsSound :
      (found : Option Form) (i : ℕ) (r : FetchResult) (page : Page)
      → IsSound page
      → IsSound (reply_to upper found i r page)
  unfolding reply_to receive_reply
  reply_to-IsSound none i r page v = v
  reply_to-IsSound (some form) i (failure message) page v = record {
    few = v.few;
    marked = v.marked;
    usable = λ e. refl;
  }
  reply_to-IsSound (some form) i (result r) page v =
      receive_strip-IsSound form r (render_result upper r) _ v.few v.marked

  restore_strip-IsSound :
      (form : Form) (strip : Option Strip) (page : Page)
      → IsSound page
      → IsSound (restore_strip upper form strip page)
  unfolding restore_strip
  restore_strip-IsSound form none page v = record {
    few = v.few;
    marked = v.marked;
    usable = v.usable;
  }
  restore_strip-IsSound form (some strip) page v = record {
    few = v.few;
    marked = v.marked;
    usable = v.usable;
  }

  restore_entry-IsSound :
      (entry : Option Entry) (page : Page) → IsSound page → IsSound (restore_entry upper entry page)
  unfolding restore_entry
  restore_entry-IsSound none page v = v
  restore_entry-IsSound (some entry) page v =
      restore_strip-IsSound entry.form (render_result upper entry.result) page v

  handle_event-IsSound :
      (page : Page) (event : Event) → IsSound page → IsSound (handle_event upper page event)
  unfolding handle_event
  handle_event-IsSound page (edit form) v = record {
    few = v.few;
    marked = v.marked;
    usable = v.usable;
  }
  handle_event-IsSound page click v =
      either IsSound page.disabled page (send_request page) v (send_request-IsSound page v)
  handle_event-IsSound page shortcut v = send_request-IsSound page v
  handle_event-IsSound page (restore i) v = restore_entry-IsSound (get_elem? page.history i) page v
  handle_event-IsSound page (reply i r) v = reply_to-IsSound (get_elem? page.waiting i) i r page v

  run_from-IsSound :
      (page : Page) (events : List Event) → IsSound page → IsSound (run_events upper page events)
  unfolding run_events
  run_from-IsSound page [] v = v
  run_from-IsSound page (event ∷ events) v =
      run_from-IsSound (handle_event upper page event) events (handle_event-IsSound page event v)

  -- After any events on the page, with calls that overlap, the history has at most twelve
  -- entries, each marked as blocked as its result says, and the button is enabled when no call
  -- waits for a reply.
  pub run_events-IsSound : (events : List Event) → IsSound (run_events upper loaded_page events)
  run_events-IsSound events =
      run_from-IsSound loaded_page events
        (record { few = omega arith; marked = tt; usable = λ e. refl })
