-- ===== src/Lab/Bootstrap/Tests.antt =====
-- A bootstrap of tools/owasp-crs-lab.py.
use envoy_modsecurity.Prelude.{◌≡◌, refl, false, some, nat_eq}
use envoy_modsecurity.Prelude.Lists.{any, contains}
use envoy_modsecurity.Prelude.Replace.{replace, replace_from, has_text}
use envoy_modsecurity.Prelude.Text.{Str, codes, join, decimal, is_space, starts_with}
use envoy_modsecurity.SecLang.{seclang_path}
use envoy_modsecurity.Lab.Bootstrap.{bootstrap_lines, port_placeholder, write_bootstrap}
use envoy_modsecurity.Lab.Bootstrap.Filled.{write_bootstrap_lem}

abbrev sample_path : Str
sample_path = codes "/tmp/lab/owasp-crs-lab.conf"

no_placeholder : has_text port_placeholder sample_path ≡ false
unfolding has_text starts_with
no_placeholder = refl

path_accepted : seclang_path sample_path ≡ some sample_path
unfolding seclang_path any contains is_space
path_accepted = refl

write_bootstrap_lem_example :
    write_bootstrap sample_path 8081
    ≡ some (join (codes "\n") (bootstrap_lines sample_path (decimal 8081)))
write_bootstrap_lem_example = write_bootstrap_lem sample_path 8081 no_placeholder path_accepted

-- The second replacement sees what the first has put in.
path_with_placeholder :
    replace (codes "_P_") (codes "1") (replace (codes "_C_") (codes "/_P_") (codes "_C_ _P_"))
    ≡ codes "/1 1"
unfolding replace replace_from starts_with
path_with_placeholder = refl
