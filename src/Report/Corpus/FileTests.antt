-- ===== src/Report/Corpus/FileTests.antt =====
-- Test files of the corpus, and what tools/crs-compatibility-report.py reads from them.
use envoy_modsecurity.Prelude.{
  ℕ, ◌-◌, ◌≡◌, refl, true, false, ◌&&◌, List, [], ◌∷◌, Option, none, some, arith, leb,
  if◌then◌else◌, nat_eq, list_eq, map,
}
use envoy_modsecurity.Prelude.Equality.{list_beq}
use envoy_modsecurity.Prelude.Dicts.{get, set_item}
use envoy_modsecurity.Prelude.Lists.{contains, all}
use envoy_modsecurity.Prelude.Sets.{to_set}
use envoy_modsecurity.Prelude.Replace.{has_text}
use envoy_modsecurity.Prelude.Split.{take_while, splitlines, is_line_break}
use envoy_modsecurity.Prelude.Text.{Str, codes, ascii_lower, is_space}
use envoy_modsecurity.Report.Corpus.{skip_spaces, after_prefix, skip_quote}
use envoy_modsecurity.Report.Corpus.Patterns.{at_line_end, search, rule_id_at, is_digit}
use envoy_modsecurity.Report.Corpus.Metadata.{
  CorpusFile, create_rule_index, index_files, add_rule, lowered_profile, follows_in_line,
  block_metadata, create_test_metadata,
}
use envoy_modsecurity.Report.Corpus.Overrides.{
  parse_upstream_override_ids, override_lines, override_rule_at, line_overrides, override_tests_at,
  find_runs,
}
use envoy_modsecurity.Report.Corpus.Retries.{switch_off, retry_at}
use envoy_modsecurity.Report.Corpus.Written.{WrittenTest, test_text, ArePlain, AreTests}
use envoy_modsecurity.Report.Corpus.RuleLine.{IsRuleId, file_text}
use envoy_modsecurity.Report.Corpus.Found.{create_test_metadata_finds}

splitlines_tests :
    (splitlines (codes "a\r\nb\n\nc") ≡ codes "a" ∷ codes "b" ∷ [] ∷ codes "c" ∷ [])
    × (splitlines (codes "a\n") ≡ codes "a" ∷ [])
    × (splitlines [] ≡ [])
unfolding splitlines is_line_break
splitlines_tests = (refl, refl, refl)

profile_tests :
    (lowered_profile (codes "a: 1\ncontent-type: text/xml\n") ≡ codes "xml")
    × (lowered_profile (codes "content-type:\n json") ≡ codes "standard-http")
unfolding lowered_profile has_text follows_in_line after_prefix take_while
profile_tests = (refl, refl)

retry_tests :
    (switch_off (codes "a:\n  retry_once: true\nb") ≡ (codes "a:\n  retry_once: false\nb", 1))
    × (switch_off (codes "a: retry_once: true") ≡ (codes "a: retry_once: true", 0))
unfolding switch_off retry_at at_line_end skip_spaces is_space after_prefix
retry_tests = (refl, refl)

-- The ASCII digits.
abbrev ascii_digit : ℕ → Option ℕ
ascii_digit c = if leb b'0' c && leb c b'9' then some (c - b'0') else none

space_no_digit : (c : ℕ) → is_space c ≡ true → is_digit ascii_digit c ≡ false
unfolding is_space
space_no_digit c h = ground arith

override_tests :
    parse_upstream_override_ids ascii_digit (
      codes "  - rule_id: '920100'"
      ∷ codes "    test_ids: [4, 8]"
      ∷ codes "  - rule_id: 920200"
      ∷ codes "    test_ids: [4"
      ∷ [])
    ≡ codes "920100-4" ∷ codes "920100-8" ∷ []
unfolding parse_upstream_override_ids override_lines override_rule_at line_overrides
    override_tests_at find_runs to_set skip_spaces is_space after_prefix skip_quote take_while
    contains list_beq
override_tests = refl

abbrev first_test : WrittenTest
first_test = record {
  number = codes "1";
  body = codes "    stages:" ∷ codes "      expect_ids: [920100]" ∷ [];
}

abbrev second_test : WrittenTest
second_test = record { number = codes "2"; body = codes "    stages: []" ∷ [] }

abbrev sample_head : List Str
sample_head = codes "tests:" ∷ []

abbrev sample_file : CorpusFile
sample_file = record {
  directory = codes "REQUEST-920";
  text = file_text (codes "920100") sample_head (first_test ∷ second_test ∷ []);
}

index_test : create_rule_index (sample_file ∷ []) ≡ (codes "920100", codes "REQUEST-920") ∷ []
unfolding create_rule_index index_files add_rule search rule_id_at skip_spaces is_space after_prefix
    skip_quote take_while set_item
index_test = refl

sample_rule : IsRuleId (codes "920100")
unfolding all is_space
sample_rule = record { some_char = refl; id_chars = refl }

sample_head_plain : ArePlain sample_head
unfolding contains after_prefix
sample_head_plain = (record { one_line = refl; no_key = refl; no_later_key = refl }, tt)

sample_tests : AreTests ascii_digit (first_test ∷ second_test ∷ [])
unfolding all contains after_prefix
sample_tests = (
  record { some_digit = refl; all_digits = refl },
  (
    record { one_line = refl; no_key = refl; no_later_key = refl },
    (record { one_line = refl; no_key = refl; no_later_key = refl }, tt),
  ),
  (
    record { some_digit = refl; all_digits = refl },
    (record { one_line = refl; no_key = refl; no_later_key = refl }, tt),
    tt,
  ),
)

last_of_number : contains ((codes "2") ∷ []) (codes "1") ≡ false
unfolding contains list_beq
last_of_number = refl

create_test_metadata_finds_example :
    get (codes "920100-1") (create_test_metadata (map ascii_lower) ascii_digit (sample_file ∷ []))
    ≡ some
        (block_metadata (map ascii_lower) ascii_digit (codes "REQUEST-920") (test_text first_test))
create_test_metadata_finds_example =
    create_test_metadata_finds (map ascii_lower) ascii_digit space_no_digit [] (codes "920100")
      (codes "REQUEST-920") sample_head [] (second_test ∷ []) first_test sample_rule
      sample_head_plain sample_tests last_of_number
