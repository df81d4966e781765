-- ===== src/SecLang/Tests.antt =====
-- A run of `write_crs_config` (tools/qualification-benchmark.py), and its theorem at it.
use envoy_modsecurity.Prelude.{◌≡◌, refl, List, [], ◌∷◌, ◌++◌, map, none, some}
use envoy_modsecurity.Prelude.Lists.{any, contains}
use envoy_modsecurity.Prelude.Text.{Str, codes, is_space, join}
use envoy_modsecurity.SecLang.{seclang_path, include_lines, config_lines, crs_config}
use envoy_modsecurity.SecLang.Includes.{included, included-crs_config}

spaced_path : seclang_path (codes "/tmp/a b.conf") ≡ none
unfolding seclang_path any contains is_space
spaced_path = refl

-- As many rule files as are expected.
abbrev rule_files : List Str
rule_files =
    codes "/r/01"
    ∷ codes "/r/02"
    ∷ codes "/r/03"
    ∷ codes "/r/04"
    ∷ codes "/r/05"
    ∷ codes "/r/06"
    ∷ codes "/r/07"
    ∷ codes "/r/08"
    ∷ codes "/r/09"
    ∷ codes "/r/10"
    ∷ codes "/r/11"
    ∷ codes "/r/12"
    ∷ codes "/r/13"
    ∷ codes "/r/14"
    ∷ codes "/r/15"
    ∷ codes "/r/16"
    ∷ codes "/r/17"
    ∷ codes "/r/18"
    ∷ codes "/r/19"
    ∷ codes "/r/20"
    ∷ codes "/r/21"
    ∷ codes "/r/22"
    ∷ codes "/r/23"
    ∷ codes "/r/24"
    ∷ codes "/r/25"
    ∷ codes "/r/26"
    ∷ codes "/r/27"
    ∷ []

abbrev sample_includes : List Str
sample_includes = map (λ path. codes "Include " ++ path) (codes "/setup" ∷ rule_files)

abbrev sample_config : Str
sample_config = join (codes "\n") (config_lines (codes "/map") sample_includes)

written : crs_config (codes "/map") (codes "/setup") rule_files ≡ some sample_config
unfolding crs_config include_lines seclang_path any contains is_space
written = refl

included-crs_config_example : included sample_config ≡ sample_includes
included-crs_config_example = included-crs_config (codes "/map") (codes "/setup") rule_files written
