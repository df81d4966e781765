-- ===== src/Lab/Page/Tests.antt =====
-- The page of tools/owasp-crs-lab.py on small inputs.
use envoy_modsecurity.Prelude.{◌≡◌, refl, false, List, [], ◌∷◌, map, none, nat_eq, list_eq}
use envoy_modsecurity.Prelude.Equality.{list_beq}
use envoy_modsecurity.Prelude.Lists.{contains, length}
use envoy_modsecurity.Prelude.Dicts.{Dict, has_key, set_item, HasDistinctKeys}
use envoy_modsecurity.Prelude.Text.{Str, codes, join}
use envoy_modsecurity.Prelude.Split.{strip, split, drop_while}
use envoy_modsecurity.Lab.Execute.{Report}
use envoy_modsecurity.Lab.Page.{
  Event, click, shortcut, restore, reply, result, failure, headers, invalid_line, is_js_space,
  parse_headers, run_events, loaded_page,
}
use envoy_modsecurity.Lab.Page.Headers.{AreFields, header_line, parse_headers-join}
use envoy_modsecurity.Lab.Page.Invariant.{IsSound, run_events-IsSound}

abbrev sample_report : Report
sample_report = record {
  request_id = codes "0123456789abcdef";
  upstream_reached = false;
  security_event = none;
  status = 403;
  reason = codes "Forbidden";
  detail = none;
  elapsed_ms = 3;
  headers = [];
  body = [];
  truncated = false;
}

abbrev sample_events : List Event
sample_events =
    click
    ∷ click
    ∷ shortcut
    ∷ reply 0 (result sample_report)
    ∷ reply 0 (failure (codes "lost"))
    ∷ restore 0
    ∷ []

abbrev same : Str → Str
same s = s

-- The second click finds the button disabled; the shortcut does not.
two_waiting : length (run_events same loaded_page (click ∷ click ∷ shortcut ∷ [])).waiting ≡ 2
unfolding run_events parse_headers strip split drop_while is_js_space set_item list_beq
two_waiting = refl

-- A reply enables the button while the other call still waits.
enabled_early :
    (run_events same loaded_page (click ∷ shortcut ∷ reply 0 (result sample_report) ∷ [])).disabled
    ≡ false
unfolding run_events parse_headers strip split drop_while is_js_space set_item list_beq
enabled_early = refl

run_events-IsSound_example : IsSound (run_events same loaded_page sample_events)
run_events-IsSound_example = run_events-IsSound same sample_events

abbrev sample_fields : Dict Str Str
sample_fields = (codes "Accept", codes "text/html; q=1") ∷ (codes "X-Id", codes "a:b") ∷ []

sample-IsField : AreFields sample_fields
unfolding contains strip drop_while is_js_space list_beq
sample-IsField = (
  record {
    named = refl;
    no_colon = refl;
    name_line = refl;
    value_line = refl;
    name_trimmed = refl;
    value_trimmed = refl;
    plain = refl;
  },
  (
    record {
      named = refl;
      no_colon = refl;
      name_line = refl;
      value_line = refl;
      name_trimmed = refl;
      value_trimmed = refl;
      plain = refl;
    },
    tt,
  ),
)

sample-HasDistinctKeys : HasDistinctKeys sample_fields
unfolding has_key list_beq
sample-HasDistinctKeys = (refl, (refl, tt))

parse_headers-join_example :
    parse_headers (join (codes "\n") (map header_line sample_fields)) ≡ headers sample_fields
parse_headers-join_example = parse_headers-join sample_fields sample-IsField sample-HasDistinctKeys

nameless : parse_headers (codes "A: b\r\n: c") ≡ invalid_line (codes ": c")
unfolding parse_headers strip split drop_while is_js_space set_item list_beq
nameless = refl
