-- ===== src/Lab/Config/Tests.antt =====
-- A run of `write_crs_config` of tools/owasp-crs-lab.py, and its theorem at it.
use envoy_modsecurity.Prelude.{ℕ, zero, suc, ◌+◌, ◌≡◌, refl, List, [], ◌∷◌, ◌++◌, map, some, nat_eq}
use envoy_modsecurity.Prelude.Lists.{any, contains}
use envoy_modsecurity.Prelude.Text.{Str, codes, is_space, join, decimal}
use envoy_modsecurity.SecLang.{seclang_path, include_lines}
use envoy_modsecurity.Lab.Config.{lab_config_lines, lab_crs_config}

abbrev files_from : ℕ → ℕ → List Str
files_from i zero = []
files_from i (suc n) = (codes "/r/" ++ decimal i) ∷ files_from (i + 1) n

abbrev rule_files : List Str
rule_files = files_from 1 27

abbrev sample_includes : List Str
sample_includes = map (λ path. codes "Include " ++ path) (codes "/setup" ∷ rule_files)

abbrev sample_config : Str
sample_config = join (codes "\n") (lab_config_lines (codes "/map") sample_includes)

written : lab_crs_config (codes "/map") (codes "/setup") rule_files ≡ some (sample_config, 27)
unfolding lab_crs_config include_lines seclang_path any contains is_space decimal
written = refl
