-- ===== src/Report/Versions/Tests.antt =====
-- Lines of a lock file, and the theorem on them (tools/crs-compatibility-report.py).
use envoy_modsecurity.Prelude.{
  ◌≡◌, refl, false, [], ◌∷◌, ◌++◌, map, some, if◌then◌else◌, ◌==◌, nat_eq, list_eq,
}
use envoy_modsecurity.Prelude.Lists.{contains}
use envoy_modsecurity.Prelude.Dicts.{get, set_item}
use envoy_modsecurity.Prelude.Text.{Str, codes, starts_with, ascii_lower, is_space}
use envoy_modsecurity.Report.Corpus.{skip_spaces, after_prefix}
use envoy_modsecurity.Prelude.Split.{split_once}
use envoy_modsecurity.Report.Versions.{
  without_suffix, version_line, versions_from, dependency_versions,
}
use envoy_modsecurity.Report.Versions.Pins.{pin, dependency_versions-pin}

abbrev sample_lower : Str → Str
sample_lower s = map ascii_lower s

two_lines :
    dependency_versions sample_lower (codes "# X_VERSION=1" ∷ codes "ENVOY_VERSION=1.30=b" ∷ [])
    ≡ (codes "envoy", codes "1.30=b") ∷ []
unfolding versions_from version_line split_once without_suffix after_prefix skip_spaces is_space
    starts_with ascii_lower set_item
two_lines = refl

no_sign : contains (codes "ENVOY" ++ codes "_VERSION") b'=' ≡ false
unfolding contains
no_sign = refl

no_comment : starts_with (skip_spaces (pin (codes "ENVOY") (codes "1.30=b"))) (codes "#") ≡ false
unfolding starts_with skip_spaces is_space
no_comment = refl

dependency_versions-pin_example :
    get (codes "envoy") (
      dependency_versions sample_lower
        ((codes "# pins" ∷ []) ++ pin (codes "ENVOY") (codes "1.30=b") ∷ []))
    ≡ (if codes "envoy" == sample_lower (codes "ENVOY")
        then some (codes "1.30=b")
        else get (codes "envoy") (dependency_versions sample_lower (codes "# pins" ∷ [])))
dependency_versions-pin_example =
    dependency_versions-pin sample_lower (codes "# pins" ∷ []) (codes "ENVOY") (codes "1.30=b")
      no_sign no_comment (codes "envoy")
