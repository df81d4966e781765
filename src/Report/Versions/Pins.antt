-- ===== src/Report/Versions/Pins.antt =====
-- The versions that the lock file pins are read back (tools/crs-compatibility-report.py).
use envoy_modsecurity.Prelude.{
  ℕ, ◌≡◌, refl, ◌∙◌, ap, false, List, [], ◌∷◌, ◌++◌, some, arith, if◌then◌else◌, ◌==◌, nat_eq,
  list_eq,
}
use mathlib.Core.List.{reverse, reverse-append, reverse-reverse}
use envoy_modsecurity.Prelude.Lists.{contains}
use envoy_modsecurity.Prelude.Dicts.{Dict, get, get-set_item}
use envoy_modsecurity.Prelude.Text.{Str, codes, starts_with}
use envoy_modsecurity.Report.Corpus.{skip_spaces, after_prefix}
use envoy_modsecurity.Prelude.Split.{split_once}
use envoy_modsecurity.Report.Versions.{
  without_suffix, version_line, set_version, versions_from, dependency_versions,
}

pub split_once-append :
    (sep : ℕ) (p s : Str) → contains p sep ≡ false → split_once sep (p ++ sep ∷ s) ≡ some (p, s)
unfolding split_once contains
split_once-append sep [] s h = ground arith
split_once-append sep (c ∷ p) s h = ground (arith, split_once-append sep p s)

after_prefix-append : (p s : Str) → after_prefix p (p ++ s) ≡ some s
unfolding after_prefix
after_prefix-append [] s = refl
after_prefix-append (c ∷ p) s = ground (arith, after_prefix-append p s)

without_suffix-append : (suffix s : Str) → without_suffix suffix (s ++ suffix) ≡ some s
unfolding without_suffix
without_suffix-append suffix s = ground (
  arith,
  ap (after_prefix (reverse suffix)) (reverse-append s suffix),
  after_prefix-append (reverse suffix) (reverse s),
  reverse-reverse s,
)

-- The line that pins a component's version.
abbrev pub pin : Str → Str → Str
pin name value = (name ++ codes "_VERSION") ++ b'=' ∷ value

module _ (lower : Str → Str) where
  version_line-pin :
      (name value : Str)
      → contains (name ++ codes "_VERSION") b'=' ≡ false
      → starts_with (skip_spaces (pin name value)) (codes "#") ≡ false
      → version_line lower (pin name value) ≡ some (lower name, value)
  unfolding version_line
  version_line-pin name value plain no_comment = ground (
    arith,
    split_once-append b'=' (name ++ codes "_VERSION") value plain,
    without_suffix-append (codes "_VERSION") name,
  )

  versions_from-append :
      (lines more : List Str) (d : Dict Str Str)
      → versions_from lower (lines ++ more) d
        ≡ versions_from lower more (versions_from lower lines d)
  unfolding versions_from
  versions_from-append [] more d = refl
  versions_from-append (line ∷ lines) more d =
      versions_from-append lines more (set_version lower (version_line lower line) d)

  -- A last line that pins the version of a component sets that component's version to what stands
  -- after its first equals sign, and keeps the versions that the lines before it give to all
  -- others. The line is no comment, and the component's name has no equals sign.
  pub dependency_versions-pin :
      (lines : List Str) (name value : Str)
      → contains (name ++ codes "_VERSION") b'=' ≡ false
      → starts_with (skip_spaces (pin name value)) (codes "#") ≡ false
      → (component : Str)
      → get component (dependency_versions lower (lines ++ pin name value ∷ [])) ≡ (
          if component == lower name
          then some value
          else get component (dependency_versions lower lines))
  unfolding versions_from
  dependency_versions-pin lines name value plain no_comment component =
      let before = dependency_versions lower lines in
      ap (get component) (versions_from-append lines (pin name value ∷ []) [])
      ∙ ap (λ v. get component (set_version lower v before))
          (version_line-pin name value plain no_comment)
      ∙ get-set_item (lower name) component value before
