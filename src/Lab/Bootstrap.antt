-- ===== src/Lab/Bootstrap.antt =====
-- `BOOTSTRAP_TEMPLATE` and `write_bootstrap` of tools/owasp-crs-lab.py: the configuration of Envoy.
-- A path is the text of the resolved path.
pub mod Filled
mod Tests
use envoy_modsecurity.Prelude.{ℕ, List, [], ◌∷◌, ◌++◌, Option, none, some}
use envoy_modsecurity.Prelude.Replace.{replace}
use envoy_modsecurity.Prelude.Text.{Str, codes, join, decimal}
use envoy_modsecurity.SecLang.{seclang_path}

abbrev pub listener_lines : List Str
listener_lines =
    codes "admin:"
    ∷ codes "  address:"
    ∷ codes "    socket_address:"
    ∷ codes "      address: 127.0.0.1"
    ∷ codes "      port_value: 0"
    ∷ []
    ∷ codes "static_resources:"
    ∷ codes "  listeners:"
    ∷ codes "    - name: owasp_crs_lab_listener"
    ∷ codes "      address:"
    ∷ codes "        socket_address:"
    ∷ codes "          address: 127.0.0.1"
    ∷ codes "          port_value: 0"
    ∷ codes "      filter_chains:"
    ∷ codes "        - filters:"
    ∷ codes "            - name: envoy.filters.network.http_connection_manager"
    ∷ codes "              typed_config:"
    ∷ codes
        "                \"@type\": type.googleapis.com/envoy.extensions.filters.network.http_connection_manager.v3.HttpConnectionManager"
    ∷ codes "                stat_prefix: owasp_crs_lab_http"
    ∷ codes "                access_log:"
    ∷ codes "                  - name: envoy.access_loggers.stdout"
    ∷ codes "                    typed_config:"
    ∷ codes
        "                      \"@type\": type.googleapis.com/envoy.extensions.access_loggers.stream.v3.StdoutAccessLog"
    ∷ codes "                      log_format:"
    ∷ codes "                        json_format:"
    ∷ codes "                          request_id: \"%REQ(X-OWASP-LAB-ID)%\""
    ∷ codes "                          method: \"%REQ(:METHOD)%\""
    ∷ codes "                          path: \"%REQ(:PATH)%\""
    ∷ codes "                          response_code: \"%RESPONSE_CODE%\""
    ∷ codes "                          response_code_details: \"%RESPONSE_CODE_DETAILS%\""
    ∷ codes "                          duration_ms: \"%DURATION%\""
    ∷ codes
        "                          modsecurity: \"%DYNAMIC_METADATA(envoy.filters.http.modsecurity)%\""
    ∷ codes "                route_config:"
    ∷ codes "                  name: owasp_crs_lab_routes"
    ∷ codes "                  virtual_hosts:"
    ∷ codes "                    - name: owasp_crs_lab_service"
    ∷ codes "                      domains: [\"*\"]"
    ∷ codes "                      routes:"
    ∷ codes "                        - match:"
    ∷ codes "                            prefix: \"/\""
    ∷ codes "                          route:"
    ∷ codes "                            cluster: owasp_crs_lab_upstream"
    ∷ codes "                http_filters:"
    ∷ codes "                  - name: envoy.filters.http.modsecurity"
    ∷ codes "                    typed_config:"
    ∷ codes
        "                      \"@type\": type.googleapis.com/envoy_modsecurity.extensions.filters.http.modsecurity.v3.ModSecurity"
    ∷ codes "                      rules:"
    ∷ []

abbrev pub filter_lines : List Str
filter_lines =
    codes "                      request_body:"
    ∷ codes "                        max_bytes:"
    ∷ codes "                          value: 1048576"
    ∷ codes "                      failure_mode_allow: false"
    ∷ codes "                      stat_prefix: owasp_crs_lab"
    ∷ codes "                      max_active_body_bytes:"
    ∷ codes "                        value: 8388608"
    ∷ codes "                  - name: envoy.filters.http.router"
    ∷ codes "                    typed_config:"
    ∷ codes
        "                      \"@type\": type.googleapis.com/envoy.extensions.filters.http.router.v3.Router"
    ∷ []
    ∷ codes "  clusters:"
    ∷ codes "    - name: owasp_crs_lab_upstream"
    ∷ codes "      connect_timeout: 1s"
    ∷ codes "      type: STATIC"
    ∷ codes "      load_assignment:"
    ∷ codes "        cluster_name: owasp_crs_lab_upstream"
    ∷ codes "        endpoints:"
    ∷ codes "          - lb_endpoints:"
    ∷ codes "              - endpoint:"
    ∷ codes "                  address:"
    ∷ codes "                    socket_address:"
    ∷ codes "                      address: 127.0.0.1"
    ∷ []

abbrev pub root_config_placeholder : Str
root_config_placeholder = codes "__CRS_ROOT_CONFIG__"

abbrev pub port_placeholder : Str
port_placeholder = codes "__UPSTREAM_PORT__"

-- The two lines with a place to be filled.
abbrev pub root_config_line : Str → Str
root_config_line root_config = codes "                        - filename: " ++ root_config

abbrev pub port_line : Str → Str
port_line port = codes "                      port_value: " ++ port

-- The lines of the template, with what stands at its two places.
abbrev pub bootstrap_lines : (root_config port : Str) → List Str
bootstrap_lines root_config port =
    listener_lines ++ (root_config_line root_config ∷ (filter_lines ++ (port_line port ∷ [] ∷ [])))

unfoldable pub bootstrap_template : Str
unfolding join
bootstrap_template = join (codes "\n") (bootstrap_lines root_config_placeholder port_placeholder)

-- The template with its two places filled, the path first.
unfoldable pub fill_template : (path : Str) (upstream_port : ℕ) → Str
unfolding replace bootstrap_template
fill_template path upstream_port =
    replace port_placeholder (decimal upstream_port)
      (replace root_config_placeholder path bootstrap_template)

-- The text that is written; `none` is ValueError.
unfoldable pub write_bootstrap : (crs_config : Str) (upstream_port : ℕ) → Option Str
write_bootstrap crs_config upstream_port = elim (seclang_path crs_config) [
  | none ↦ none
  | some path ↦ some (fill_template path upstream_port)
]
