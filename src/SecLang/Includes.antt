-- ===== src/SecLang/Includes.antt =====
-- What ModSecurity reads of the configuration that `write_crs_config`
-- (tools/qualification-benchmark.py) writes.
use envoy_modsecurity.Prelude.{
  ◌≡◌, refl, ◌∙◌, ap, sym, subst, Bool, false, List, [], ◌∷◌, ◌++◌, map, some, arith, nat_eq,
  Option-cases, inl, inr,
}
use mathlib.Core.List.{append-nil}
use envoy_modsecurity.Prelude.Lists.{any, filter, contains, contains-append, any-append}
use envoy_modsecurity.Prelude.Text.{Str, codes, is_space, join, starts_with}
use envoy_modsecurity.Prelude.Split.{split, split-join}
use envoy_modsecurity.SecLang.{
  seclang_path, include_lines, leading_lines, rule_lines, mapping_line, trailing_lines,
  config_lines, crs_config,
}

-- The lines that include a file.
abbrev pub included : Str → List Str
included config = filter (λ line. starts_with line (codes "Include ")) (split b'\n' config)

space_free : (s : Str) → any is_space s ≡ false → contains s b'\n' ≡ false
unfolding any contains is_space
space_free [] h = refl
space_free (c ∷ s) h = ground (arith, space_free s)

pub seclang_path_inv :
    (value : Str) {v : Str}
    → seclang_path value ≡ some v
    → (value ≡ v) × (contains value b'\n' ≡ false)
unfolding seclang_path
seclang_path_inv value h = ground (arith, space_free value)

pub include_lines_lem :
    (paths : List Str) {lines : List Str}
    → include_lines paths ≡ some lines
    → (lines ≡ map (λ path. codes "Include " ++ path) paths)
      × (any (λ l. contains l b'\n') lines ≡ false)
unfolding include_lines any contains
include_lines_lem [] h = (ground arith, ground arith)
include_lines_lem (path ∷ paths) {lines} h = elim (Option-cases (seclang_path path)) [
  | inl refused ↦ absurd (ground arith)
  | inr (value, accepted) ↦ elim (Option-cases (include_lines paths)) [
    | inl refused ↦ absurd (ground arith)
    | inr (rest, more) ↦
        let (same, one_line) = seclang_path_inv path accepted in
        let (mapped, free) = include_lines_lem paths more in
        let built : ((codes "Include " ++ value) ∷ rest) ≡ lines = ground arith in
        let free_value : contains value b'\n' ≡ false =
          subst (λ v. contains v b'\n' ≡ false) same one_line in
        (
          sym built ∙ rw (same, mapped) refl,
          subst (λ l. any (λ l. contains l b'\n') l ≡ false) built (ground arith),
        )
  ]
]

abbrev pub is_include : Str → Bool
is_include line = starts_with line (codes "Include ")

filter-append :
    (xs ys : List Str) → filter is_include (xs ++ ys) ≡ filter is_include xs ++ filter is_include ys
unfolding filter
filter-append [] ys = refl
filter-append (x ∷ xs) ys = ground (arith, filter-append xs ys)

pub filter_includes :
    (paths : List Str)
    → filter is_include (map (λ path. codes "Include " ++ path) paths)
      ≡ map (λ path. codes "Include " ++ path) paths
unfolding filter starts_with
filter_includes [] = refl
filter_includes (path ∷ paths) = ap (◌∷◌ (codes "Include " ++ path)) (filter_includes paths)

-- The includes are found between lines that include nothing.
pub included_between :
    (first : Str) (before includes after : List Str)
    → any (λ l. contains l b'\n') (first ∷ before) ≡ false
    → any (λ l. contains l b'\n') includes ≡ false
    → any (λ l. contains l b'\n') after ≡ false
    → filter is_include (first ∷ before) ≡ []
    → filter is_include after ≡ []
    → filter is_include includes ≡ includes
    → included (join (codes "\n") (first ∷ before ++ (includes ++ after))) ≡ includes
included_between first before includes after h k l f g i =
    let free : any (λ x. contains x b'\n') (first ∷ before ++ (includes ++ after)) ≡ false =
      ground (
        arith,
        any-append (λ x. contains x b'\n') (first ∷ before) (includes ++ after),
        any-append (λ x. contains x b'\n') includes after,
      ) in
    ap (filter is_include) (split-join b'\n' first (before ++ (includes ++ after)) free)
    ∙ filter-append (first ∷ before) (includes ++ after)
    ∙ ap (λ ls. ls ++ filter is_include (includes ++ after)) f
    ∙ filter-append includes after
    ∙ ap (λ ls. filter is_include includes ++ ls) g
    ∙ append-nil (filter is_include includes)
    ∙ i

config_free :
    (mapping : Str)
    → contains mapping b'\n' ≡ false
    → any (λ l. contains l b'\n') (leading_lines ++ mapping_line mapping ∷ rule_lines) ≡ false
unfolding any contains
config_free mapping h = ground (arith, contains-append mapping (codes " 20127") b'\n')

trailing_free : any (λ l. contains l b'\n') trailing_lines ≡ false
unfolding any contains
trailing_free = refl

no_include_before :
    (mapping : Str) → filter is_include (leading_lines ++ mapping_line mapping ∷ rule_lines) ≡ []
unfolding filter starts_with
no_include_before mapping = refl

no_include_after : filter is_include trailing_lines ≡ []
unfolding filter starts_with
no_include_after = refl

included_lem :
    (mapping : Str) (lines : List Str)
    → contains mapping b'\n' ≡ false
    → any (λ l. contains l b'\n') lines ≡ false
    → filter is_include lines ≡ lines
    → included (join (codes "\n") (config_lines mapping lines)) ≡ lines
included_lem mapping lines h k f =
    included_between (codes "SecRuleEngine On") _ lines trailing_lines (config_free mapping h) k
      trailing_free (no_include_before mapping) no_include_after f

-- What is known of a mapping and of includes that are written.
pub accepted_lem :
    (unicode_mapping : Str) (paths : List Str) {mapping : Str} {lines : List Str}
    → seclang_path unicode_mapping ≡ some mapping
    → include_lines paths ≡ some lines
    → (contains mapping b'\n' ≡ false)
      × (any (λ l. contains l b'\n') lines ≡ false)
      × (filter is_include lines ≡ lines)
      × (lines ≡ map (λ path. codes "Include " ++ path) paths)
accepted_lem unicode_mapping paths accepted more =
    let (is_path, no_break) = seclang_path_inv unicode_mapping accepted in
    let (mapped, free) = include_lines_lem paths more in
    (
      subst (λ v. contains v b'\n' ≡ false) is_path no_break,
      free,
      rw mapped (filter_includes paths),
      mapped,
    )

-- The lines of a written configuration that include a file are the include of the CRS setup and
-- those of the rule files, each on a line of its own, in their order and no others.
pub included-crs_config :
    (unicode_mapping crs_setup : Str) (rule_files : List Str) {config : Str}
    → crs_config unicode_mapping crs_setup rule_files ≡ some config
    → included config ≡ map (λ path. codes "Include " ++ path) (crs_setup ∷ rule_files)
unfolding crs_config
included-crs_config unicode_mapping crs_setup rule_files {config} h =
    elim (Option-cases (seclang_path unicode_mapping)) [
      | inl refused ↦ absurd (ground arith)
      | inr (mapping, accepted) ↦ elim (Option-cases (include_lines (crs_setup ∷ rule_files))) [
        | inl refused ↦ absurd (ground arith)
        | inr (lines, more) ↦
            let (one_line, free, kept, mapped) =
              accepted_lem unicode_mapping (crs_setup ∷ rule_files) accepted more in
            let written : join (codes "\n") (config_lines mapping lines) ≡ config = ground arith in
            subst
              (λ c. included c ≡ map (λ path. codes "Include " ++ path) (crs_setup ∷ rule_files))
              written (included_lem mapping lines one_line free kept ∙ mapped)
      ]
    ]
