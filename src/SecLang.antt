-- ===== src/SecLang.antt =====
-- The ModSecurity configurations that the tools write: `seclang_path` of the three tools, and
-- `write_crs_config` of tools/qualification-benchmark.py. A path is the text of the resolved path.
pub mod Includes
mod Tests
use envoy_modsecurity.Prelude.{
  ℕ, Bool, ◌||◌, List, [], ◌∷◌, ◌++◌, Option, none, some, if◌then◌else◌, ◌==◌, nat_eq,
}
use envoy_modsecurity.Prelude.Lists.{length, any, contains}
use envoy_modsecurity.Prelude.Text.{Str, codes, is_space, join}

abbrev pub expected_crs_rule_file_count : ℕ
expected_crs_rule_file_count = 27

-- `none` is ValueError.
unfoldable pub seclang_path : Str → Option Str
unfolding any contains
seclang_path value = if any is_space value || contains value b'#' then none else some value

-- `[f"Include {seclang_path(path)}" for path in rule_files]`
unfoldable pub include_lines : List Str → Option (List Str)
unfolding seclang_path
include_lines [] = some []
include_lines (path ∷ paths) =
    let rest = include_lines paths in
    elim (seclang_path path) [
      | none ↦ none
      | some value ↦ elim rest [
        | none ↦ none
        | some lines ↦ some ((codes "Include " ++ value) ∷ lines)
      ]
    ]

abbrev pub leading_lines : List Str
leading_lines =
    codes "SecRuleEngine On"
    ∷ codes "SecRequestBodyAccess On"
    ∷ codes "SecRequestBodyLimit 1048576"
    ∷ codes "SecRequestBodyNoFilesLimit 1048576"
    ∷ codes "SecRequestBodyLimitAction Reject"
    ∷ codes "SecRequestBodyJsonDepthLimit 64"
    ∷ codes "SecArgumentsLimit 1000"
    ∷ codes "SecResponseBodyAccess Off"
    ∷ codes "SecAuditEngine Off"
    ∷ []

abbrev pub rule_lines : List Str
rule_lines =
    codes "SecPcreMatchLimit 100000"
    ∷ codes
        "SecAction \"id:1400000,phase:1,pass,t:none,nolog,tag:'OWASP_CRS',setvar:tx.blocking_paranoia_level=1\""
    ∷ codes
        "SecRule REQUEST_HEADERS:Content-Type \"^application/json(?:\\\\s*;|$)\" \"id:1400001,phase:1,t:none,t:lowercase,pass,nolog,ctl:requestBodyProcessor=JSON\""
    ∷ []

abbrev pub trailing_lines : List Str
trailing_lines =
    codes "SecRule REQUEST_URI \"@streq /pathological\" \"id:1400002,phase:2,pass,nolog,chain\""
    ∷ codes "SecRule REQUEST_BODY \"@rx ^(?:a|aa)+$\" \"t:none\""
    ∷ []
    ∷ []

abbrev pub mapping_line : (unicode_mapping : Str) → Str
mapping_line unicode_mapping = codes "SecUnicodeMapFile " ++ (unicode_mapping ++ codes " 20127")

abbrev pub config_lines : (unicode_mapping : Str) (includes : List Str) → List Str
config_lines unicode_mapping includes =
    leading_lines ++ (mapping_line unicode_mapping ∷ (rule_lines ++ (includes ++ trailing_lines)))

-- The text that is written; `none` is RuntimeError or ValueError. The setup is the first include.
unfoldable pub crs_config : (unicode_mapping crs_setup : Str) (rule_files : List Str) → Option Str
unfolding join
crs_config unicode_mapping crs_setup rule_files =
    if length rule_files == expected_crs_rule_file_count
    then elim (seclang_path unicode_mapping) [
      | none ↦ none
      | some mapping ↦ elim (include_lines (crs_setup ∷ rule_files)) [
        | none ↦ none
        | some includes ↦ some (join (codes "\n") (config_lines mapping includes))
      ]
    ]
    else none
