-- ===== src/Report/Corpus/Metadata.antt =====
-- What tools/crs-compatibility-report.py knows of the tests: `create_rule_index`, `input_profile`
-- and `create_test_metadata`. A file is its text as it is decoded and the name of its directory, and
-- the files stand in the order in which `rglob` finds them. `lower` is `str.lower`.
use envoy_modsecurity.Prelude.{
  ℕ, Bool, true, false, not, ◌||◌, List, [], ◌∷◌, ◌++◌, Option, none, some, if◌then◌else◌, leb,
  ◌==◌, nat_eq, list_eq,
}
use envoy_modsecurity.Prelude.Dicts.{Dict, set_item}
use envoy_modsecurity.Prelude.Replace.{has_text}
use envoy_modsecurity.Prelude.Sets.{to_set}
use envoy_modsecurity.Prelude.Sorting.{sorted}
use envoy_modsecurity.Prelude.Split.{take_while, splitlines}
use envoy_modsecurity.Prelude.Text.{Str, codes}
use envoy_modsecurity.Report.Failures.{TestMetadata}
use envoy_modsecurity.Report.Corpus.{after_prefix, parse_numeric_list}
use envoy_modsecurity.Report.Corpus.Patterns.{
  search, occurs, rule_id_at, log_regex_at, expect_error_at, test_id_at, status_at,
}

pub record CorpusFile : Type 0 where
  pub directory : Str
  pub text : Str

unfoldable pub add_rule : CorpusFile → Dict Str Str → Dict Str Str
add_rule file index = elim (search rule_id_at true file.text) [
  | none ↦ index
  | some rule_id ↦ set_item rule_id file.directory index
]

unfoldable pub index_files : List CorpusFile → Dict Str Str → Dict Str Str
index_files [] index = index
index_files (file ∷ files) index = index_files files (add_rule file index)

unfoldable pub create_rule_index : List CorpusFile → Dict Str Str
unfolding index_files
create_rule_index files = index_files files []

abbrev pub not_newline : ℕ → Bool
not_newline c = not (c == b'\n')

-- `re.search(first + "[^\n]*" + second, s)` of two texts, the first of which is not empty.
unfoldable pub follows_in_line : (first second : Str) → Str → Bool
follows_in_line first second [] = false
follows_in_line first second (c ∷ s) =
    let rest = follows_in_line first second s in
    elim (after_prefix first (c ∷ s)) [
      | none ↦ rest
      | some after ↦ has_text second (take_while not_newline after) || rest
    ]

-- The profile of a block in lower case.
unfoldable pub lowered_profile : Str → Str
unfolding has_text follows_in_line
lowered_profile lowered =
    if has_text (codes "multipart/form-data") lowered
    then codes "multipart"
    else if follows_in_line (codes "content-type") (codes "json") lowered
    then codes "json"
    else if follows_in_line (codes "content-type") (codes "xml") lowered
    then codes "xml"
    else if has_text (codes "encoded_request:") lowered
    then codes "encoded-request"
    else codes "standard-http"

module _ (lower : Str → Str) where
  unfoldable pub input_profile : Str → Str
  unfolding lowered_profile
  input_profile block = lowered_profile (lower block)

module _ (digit : ℕ → Option ℕ) where
  -- A text is split where `test_pattern` matches: what stands before the first match, and for every
  -- match its group and the block up to the next one. No match begins within another, since after
  -- its key a match has white space, digits and a comment.
  unfoldable pub cut_tests : Bool → Str → Str × List (Str × Str)
  cut_tests begins [] = ([], [])
  cut_tests begins (c ∷ s) =
      let later = cut_tests (c == b'\n') s in
      if begins
      then elim (test_id_at digit (c ∷ s)) [
        | some number ↦ ([], (number, c ∷ later.0) ∷ later.1)
        | none ↦ (c ∷ later.0, later.1)
      ]
      else (c ∷ later.0, later.1)

  -- The groups and the blocks of the matches.
  unfoldable pub test_blocks : Str → List (Str × Str)
  unfolding cut_tests
  test_blocks text = (cut_tests true text).1

-- `f"{rule_id}-{number}"`
abbrev pub full_test_id : Str → Str → Str
full_test_id rule_id number = rule_id ++ (codes "-" ++ number)

module _ (lower : Str → Str) (digit : ℕ → Option ℕ) where
  -- `sorted(set(parse_numeric_list(block, key)))`
  abbrev pub sorted_ids : Str → Str → List ℕ
  sorted_ids key block = sorted leb (to_set (parse_numeric_list digit key (splitlines block)))

  unfoldable pub block_metadata : Str → Str → TestMetadata
  unfolding occurs log_regex_at expect_error_at status_at input_profile
  block_metadata directory block = record {
    category = directory;
    expected_ids = sorted_ids (codes "expect_ids") block;
    forbidden_ids = sorted_ids (codes "no_expect_ids") block;
    input_profile = input_profile lower block;
    has_log_regex = occurs log_regex_at true block;
    has_status_assertion = occurs (status_at digit) true block;
    expects_error = occurs expect_error_at true block;
  }

  unfoldable pub add_blocks :
      (rule_id directory : Str) → List (Str × Str) → Dict Str TestMetadata → Dict Str TestMetadata
  unfolding block_metadata
  add_blocks rule_id directory [] metadata = metadata
  add_blocks rule_id directory ((number, block) ∷ blocks) metadata =
      add_blocks rule_id directory blocks
        (set_item (full_test_id rule_id number) (block_metadata directory block) metadata)

  unfoldable pub add_file : CorpusFile → Dict Str TestMetadata → Dict Str TestMetadata
  unfolding add_blocks
  add_file file metadata = elim (search rule_id_at true file.text) [
    | none ↦ metadata
    | some rule_id ↦ add_blocks rule_id file.directory (test_blocks digit file.text) metadata
  ]

  unfoldable pub add_files : List CorpusFile → Dict Str TestMetadata → Dict Str TestMetadata
  unfolding add_file
  add_files [] metadata = metadata
  add_files (file ∷ files) metadata = add_files files (add_file file metadata)

  unfoldable pub create_test_metadata : List CorpusFile → Dict Str TestMetadata
  unfolding add_files
  create_test_metadata files = add_files files []
