-- ===== src/Lab/Envoy.antt =====
-- How tools/owasp-crs-lab.py waits for Envoy and finds its listener. `json_int` is Python's `int` on
-- a JSON value.
use envoy_modsecurity.Prelude.{ℕ, List, Option, none, some}
use envoy_modsecurity.Prelude.Text.{Str, codes}
use envoy_modsecurity.Prelude.Int.{ℤ}
use envoy_modsecurity.Prelude.Json.{Json}
use envoy_modsecurity.Admin.{Poll, Waited, wait_for_admin, discover_listener_port}

abbrev pub lab_wait_for_admin : (Str → Option ℤ) → List Poll → Waited
lab_wait_for_admin = wait_for_admin

abbrev pub listener_name : Str
listener_name = codes "owasp_crs_lab_listener"

abbrev pub port_int : (Json → Option ℤ) → Option Json → Option ℤ
port_int json_int none = none
port_int json_int (some port) = json_int port

abbrev pub lab_listener_port : (Json → Option ℤ) → (status : ℕ) → Json → Option ℤ
lab_listener_port json_int status body =
    port_int json_int (discover_listener_port listener_name status body)
