-- ===== src/Lab/Config.antt =====
-- `write_crs_config` of tools/owasp-crs-lab.py: the configuration of ModSecurity. A path is the text of
-- the resolved path; MAX_REQUEST_BODY_BYTES is 1048576.
pub mod Includes
mod Tests
use envoy_modsecurity.Prelude.{
  ℕ, List, [], ◌∷◌, ◌++◌, Option, none, some, if◌then◌else◌, ◌==◌, nat_eq,
}
use envoy_modsecurity.Prelude.Lists.{length}
use envoy_modsecurity.Prelude.Text.{Str, codes, join}
use envoy_modsecurity.SecLang.{
  expected_crs_rule_file_count, seclang_path, include_lines, mapping_line,
}

abbrev pub settings_lines : List Str
settings_lines =
    codes "# Generated local-only OWASP CRS lab configuration."
    ∷ codes "SecRuleEngine On"
    ∷ codes "SecRequestBodyAccess On"
    ∷ codes "SecRequestBodyLimit 1048576"
    ∷ codes "SecRequestBodyNoFilesLimit 1048576"
    ∷ codes "SecRequestBodyLimitAction Reject"
    ∷ codes "SecRequestBodyJsonDepthLimit 64"
    ∷ codes "SecArgumentsLimit 1000"
    ∷ []
    ∷ codes "SecRule REQUEST_HEADERS:Content-Type \"^(?:application(?:/soap\\+|/)|text/)xml\" \\"
    ∷ codes "    \"id:200000,phase:1,t:none,t:lowercase,pass,nolog,ctl:requestBodyProcessor=XML\""
    ∷ codes
        "SecRule REQUEST_HEADERS:Content-Type \"^application/(?:[a-z0-9.-]+\\+)?json(?:\\s*;|$)\" \\"
    ∷ codes "    \"id:200001,phase:1,t:none,t:lowercase,pass,nolog,ctl:requestBodyProcessor=JSON\""
    ∷ []
    ∷ codes "SecResponseBodyAccess Off"
    ∷ codes "SecAuditEngine Off"
    ∷ codes "SecDebugLogLevel 0"
    ∷ codes "SecStatusEngine Off"
    ∷ codes "SecXmlExternalEntity Off"
    ∷ []

abbrev pub lab_config_lines : (unicode_mapping : Str) (includes : List Str) → List Str
lab_config_lines unicode_mapping includes =
    settings_lines ++ (mapping_line unicode_mapping ∷ [] ∷ (includes ++ [] ∷ []))

-- The text that is written, and the number of rule files; `none` is RuntimeError or ValueError. The
-- setup is the first include.
unfoldable pub lab_crs_config :
    (unicode_mapping crs_setup : Str) (rule_files : List Str) → Option (Str × ℕ)
unfolding join
lab_crs_config unicode_mapping crs_setup rule_files =
    if length rule_files == expected_crs_rule_file_count
    then elim (seclang_path unicode_mapping) [
      | none ↦ none
      | some mapping ↦ elim (include_lines (crs_setup ∷ rule_files)) [
        | none ↦ none
        | some includes ↦
            some (join (codes "\n") (lab_config_lines mapping includes), length rule_files)
      ]
    ]
    else none
