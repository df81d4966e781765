-- ===== src/Lab/Config/Includes.antt =====
-- What ModSecurity reads of the configuration that tools/owasp-crs-lab.py writes.
use envoy_modsecurity.Prelude.{
  ℕ, ◌≡◌, refl, ◌∙◌, subst, false, List, [], ◌∷◌, ◌++◌, map, some, arith, nat_eq, Option-cases, inl,
  inr,
}
use envoy_modsecurity.Prelude.Lists.{any, filter, contains, contains-append}
use envoy_modsecurity.Prelude.Text.{Str, codes, join, starts_with}
use envoy_modsecurity.SecLang.{
  expected_crs_rule_file_count, seclang_path, include_lines, mapping_line,
}
use envoy_modsecurity.SecLang.Includes.{included, is_include, included_between, accepted_lem}
use envoy_modsecurity.Lab.Config.{settings_lines, lab_config_lines, lab_crs_config}

settings_free :
    (mapping : Str)
    → contains mapping b'\n' ≡ false
    → any (λ l. contains l b'\n') (settings_lines ++ mapping_line mapping ∷ [] ∷ []) ≡ false
unfolding any contains
settings_free mapping h = ground (arith, contains-append mapping (codes " 20127") b'\n')

end_free : any (λ l. contains {A = ℕ} l b'\n') ([] ∷ []) ≡ false
unfolding any contains
end_free = refl

no_include_before :
    (mapping : Str) → filter is_include (settings_lines ++ mapping_line mapping ∷ [] ∷ []) ≡ []
unfolding filter starts_with
no_include_before mapping = refl

no_include_after : filter is_include ([] ∷ []) ≡ []
unfolding filter starts_with
no_include_after = refl

included_lem :
    (mapping : Str) (lines : List Str)
    → contains mapping b'\n' ≡ false
    → any (λ l. contains l b'\n') lines ≡ false
    → filter is_include lines ≡ lines
    → included (join (codes "\n") (lab_config_lines mapping lines)) ≡ lines
included_lem mapping lines h k f =
    included_between _ _ lines ([] ∷ []) (settings_free mapping h) k end_free
      (no_include_before mapping) no_include_after f

-- The lines of the lab's configuration that include a file are the include of the CRS setup and
-- those of the rule files, each on a line of its own, in their order and no others, and the
-- number of rule files that is returned is the expected one.
pub included-lab_crs_config :
    (unicode_mapping crs_setup : Str) (rule_files : List Str) {config : Str} {number : ℕ}
    → lab_crs_config unicode_mapping crs_setup rule_files ≡ some (config, number)
    → (included config ≡ map (λ path. codes "Include " ++ path) (crs_setup ∷ rule_files))
      × (number ≡ expected_crs_rule_file_count)
unfolding lab_crs_config
included-lab_crs_config unicode_mapping crs_setup rule_files {config} {number} h =
    elim (Option-cases (seclang_path unicode_mapping)) [
      | inl refused ↦ absurd (ground arith)
      | inr (mapping, accepted) ↦ elim (Option-cases (include_lines (crs_setup ∷ rule_files))) [
        | inl refused ↦ absurd (ground arith)
        | inr (lines, more) ↦
            let (one_line, free, kept, mapped) =
              accepted_lem unicode_mapping (crs_setup ∷ rule_files) accepted more in
            let written : join (codes "\n") (lab_config_lines mapping lines) ≡ config =
              ground arith in
            (
              subst
                  (λ c.
                    included c ≡ map (λ path. codes "Include " ++ path) (crs_setup ∷ rule_files))
                  written (included_lem mapping lines one_line free kept ∙ mapped),
              ground arith,
            )
      ]
    ]
