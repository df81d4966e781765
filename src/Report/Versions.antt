-- ===== src/Report/Versions.antt =====
-- `dependency_versions` of tools/crs-compatibility-report.py, on the lines of the lock file. `lower`
-- is Python's `str.lower`.
pub mod Pins
mod Tests
use envoy_modsecurity.Prelude.{
  ℕ, Bool, true, false, List, [], ◌∷◌, Option, none, some, if◌then◌else◌, ◌==◌, nat_eq, list_eq,
}
use mathlib.Core.List.{reverse}
use envoy_modsecurity.Prelude.Dicts.{Dict, set_item}
use envoy_modsecurity.Prelude.Split.{split_once}
use envoy_modsecurity.Prelude.Text.{Str, codes, starts_with}
use envoy_modsecurity.Report.Corpus.{skip_spaces, after_prefix}

-- `s.removesuffix(suffix)` where `s.endswith(suffix)`.
unfoldable pub without_suffix : Str → Str → Option Str
without_suffix suffix s = elim (after_prefix (reverse suffix) (reverse s)) [
  | none ↦ none
  | some rest ↦ some (reverse rest)
]

module _ (lower : Str → Str) where
  -- The component and the version that a line sets.
  unfoldable pub version_line : Str → Option (Str × Str)
  version_line line =
      if starts_with (skip_spaces line) (codes "#") then none else elim (split_once b'=' line) [
        | none ↦ none
        | some (key, value) ↦ elim (without_suffix (codes "_VERSION") key) [
          | none ↦ none
          | some name ↦ some (lower name, value)
        ]
      ]

  abbrev pub set_version : Option (Str × Str) → Dict Str Str → Dict Str Str
  set_version none versions = versions
  set_version (some (name, value)) versions = set_item name value versions

  -- The loop over the lines.
  unfoldable pub versions_from : List Str → Dict Str Str → Dict Str Str
  versions_from [] versions = versions
  versions_from (line ∷ lines) versions =
      versions_from lines (set_version (version_line line) versions)

  abbrev pub dependency_versions : List Str → Dict Str Str
  dependency_versions lines = versions_from lines []
