-- ===== src/Report/Corpus/Found.antt =====
-- `create_test_metadata` (tools/crs-compatibility-report.py) finds the tests of a file that is
-- written line by line, under the id of its rule.
use envoy_modsecurity.Prelude.{
  ℕ, true, false, ◌≡◌, refl, ap, ◌∙◌, List, [], ◌∷◌, ◌++◌, map, Option, some, arith, ◌==◌, nat_eq,
  list_eq, beq_refl,
}
use mathlib.Core.List.{append_assoc}
use envoy_modsecurity.Prelude.Equality.{list_beq}
use envoy_modsecurity.Prelude.Dicts.{Dict, get, set_item, get-set_item}
use envoy_modsecurity.Prelude.Lists.{contains}
use envoy_modsecurity.Prelude.Text.{Str, codes, is_space}
use envoy_modsecurity.Report.Failures.{TestMetadata}
use envoy_modsecurity.Report.Corpus.Patterns.{search, rule_id_at, is_digit}
use envoy_modsecurity.Report.Corpus.Metadata.{
  CorpusFile, test_blocks, block_metadata, full_test_id, add_blocks, add_file, add_files,
  create_test_metadata,
}
use envoy_modsecurity.Report.Corpus.RuleLine.{
  IsRuleId, rule_line, file_text, rule_line-IsPlain, rule_id_at-line, search_here,
}
use envoy_modsecurity.Report.Corpus.Written.{
  unlines, WrittenTest, test_text, tests_text, ArePlain, AreTests, written_block, cut_tests-lines,
  cut_tests-tests,
}

beq-append : (p s t : Str) → ((p ++ s) == (p ++ t)) ≡ (s == t)
unfolding list_beq
beq-append [] s t = refl
beq-append (c ∷ p) s t = ground (arith, beq-append p s t, beq_refl c)

numbers-written :
    (tests : List WrittenTest)
    → map (λ (b : Str × Str). b.0) (map written_block tests) ≡ map (λ t. t.number) tests
numbers-written [] = refl
numbers-written (test ∷ tests) = ap (◌∷◌ test.number) (numbers-written tests)

other_test :
    (rule_id number other : Str)
    → (number == other) ≡ false
    → (full_test_id rule_id number == full_test_id rule_id other) ≡ false
other_test rule_id number other h =
    beq-append rule_id (codes "-" ++ number) (codes "-" ++ other)
    ∙ beq-append (codes "-") number other
    ∙ h

module _ (lower : Str → Str) (digit : ℕ → Option ℕ) where
  -- The tests after one with another number keep what is known of it.
  get-add_blocks :
      (rule_id directory number : Str) (later : List (Str × Str)) (d : Dict Str TestMetadata)
      → contains (map (λ b. b.0) later) number ≡ false
      → get (full_test_id rule_id number) (add_blocks lower digit rule_id directory later d)
        ≡ get (full_test_id rule_id number) d
  unfolding add_blocks contains
  get-add_blocks rule_id directory number [] d h = refl
  get-add_blocks rule_id directory number ((other, block) ∷ later) d h =
      get-add_blocks rule_id directory number later
        (set_item (full_test_id rule_id other) (block_metadata lower digit directory block) d)
        (ground arith)
      ∙ get-set_item (full_test_id rule_id other) (full_test_id rule_id number)
          (block_metadata lower digit directory block) d
      ∙ rw (other_test rule_id number other (ground arith)) refl

  -- Of the tests with a number, the last one counts.
  get-add_blocks_last :
      (rule_id directory : Str) (before later : List WrittenTest) (test : WrittenTest)
      (d : Dict Str TestMetadata)
      → contains (map (λ t. t.number) later) test.number ≡ false
      → get
          (full_test_id rule_id test.number)
          (add_blocks lower digit rule_id directory (map written_block (before ++ test ∷ later)) d)
        ≡ some (block_metadata lower digit directory (test_text test))
  unfolding add_blocks
  get-add_blocks_last rule_id directory [] later test d last =
      let key = full_test_id rule_id test.number in
      let known = block_metadata lower digit directory (test_text test) in
      get-add_blocks rule_id directory test.number (map written_block later) (set_item key known d)
        (ap (λ numbers. contains numbers test.number) (numbers-written later) ∙ last)
      ∙ get-set_item key key known d
      ∙ rw (beq_refl key) refl
  get-add_blocks_last rule_id directory (other ∷ before) later test d last =
      get-add_blocks_last rule_id directory before later test
        (set_item (full_test_id rule_id other.number)
          (block_metadata lower digit directory (test_text other)) d)
        last

  add_file_rule :
      (file : CorpusFile) (d : Dict Str TestMetadata) {rule_id : Str}
      → search rule_id_at true file.text ≡ some rule_id
      → add_file lower digit file d
        ≡ add_blocks lower digit rule_id file.directory (test_blocks digit file.text) d
  unfolding add_file
  add_file_rule file d h = ground (arith, h)

  add_files-append :
      (xs ys : List CorpusFile) (d : Dict Str TestMetadata)
      → add_files lower digit (xs ++ ys) d ≡ add_files lower digit ys (add_files lower digit xs d)
  unfolding add_files
  add_files-append [] ys d = refl
  add_files-append (file ∷ xs) ys d = add_files-append xs ys (add_file lower digit file d)

module _ (lower : Str → Str) (digit : ℕ → Option ℕ)
    (no_space : (c : ℕ) → is_space c ≡ true → is_digit digit c ≡ false) where
  test_blocks-file_text :
      (rule_id : Str) (head : List Str) (tests : List WrittenTest)
      → IsRuleId rule_id
      → ArePlain head
      → AreTests digit tests
      → test_blocks digit (file_text rule_id head tests) ≡ map written_block tests
  unfolding test_blocks
  test_blocks-file_text rule_id head tests h plain written =
      ap (λ r. r.1)
        (cut_tests-lines digit (rule_line rule_id ∷ head) (tests_text tests)
          (rule_line-IsPlain rule_id h, plain))
      ∙ ap (λ r. r.1) (cut_tests-tests digit no_space tests written)

  search-file_text :
      (rule_id : Str) (head : List Str) (tests : List WrittenTest)
      → IsRuleId rule_id
      → search rule_id_at true (file_text rule_id head tests) ≡ some rule_id
  search-file_text rule_id head tests h =
      ap (search rule_id_at true)
        (append_assoc (rule_line rule_id) (b'\n' ∷ unlines head) (tests_text tests))
      ∙ search_here rule_id_at (rule_line rule_id ++ b'\n' ∷ (unlines head ++ tests_text tests))
          (rule_id_at-line rule_id (unlines head ++ tests_text tests) h)

  add_file-file_text :
      (rule_id directory : Str) (head : List Str) (tests : List WrittenTest)
      (d : Dict Str TestMetadata)
      → IsRuleId rule_id
      → ArePlain head
      → AreTests digit tests
      → add_file lower digit
          (record { directory = directory; text = file_text rule_id head tests })
          d
        ≡ add_blocks lower digit rule_id directory (map written_block tests) d
  add_file-file_text rule_id directory head tests d h plain written =
      add_file_rule lower digit
        record { directory = directory; text = file_text rule_id head tests } d
        (search-file_text rule_id head tests h)
      ∙ ap (λ blocks. add_blocks lower digit rule_id directory blocks d)
          (test_blocks-file_text rule_id head tests h plain written)

  -- From a test file that is written line by line, after any other files, the metadata of a test
  -- is what the block of its own lines says, and it is found under the id of the file's rule and
  -- the test's number, if no later test of the file has the number. The rule's line is the first,
  -- no line within a test or before the tests begins another test, the id of the rule has no
  -- white space and no quotes, and white space is no digit.
  pub create_test_metadata_finds :
      (earlier : List CorpusFile) (rule_id directory : Str) (head : List Str)
      (before later : List WrittenTest) (test : WrittenTest)
      → IsRuleId rule_id
      → ArePlain head
      → AreTests digit (before ++ test ∷ later)
      → contains (map (λ t. t.number) later) test.number ≡ false
      → get (full_test_id rule_id test.number) (
          create_test_metadata lower digit (
            earlier
            ++ record {
              directory = directory;
              text = file_text rule_id head (before ++ test ∷ later);
            }
              ∷ []))
        ≡ some (block_metadata lower digit directory (test_text test))
  unfolding create_test_metadata add_files
  create_test_metadata_finds earlier rule_id directory head before later test h plain written last =
      let d = add_files lower digit earlier [] in
      let tests = before ++ test ∷ later in
      let file : CorpusFile = record {
        directory = directory;
        text = file_text rule_id head tests;
      } in
      ap (get (full_test_id rule_id test.number))
        (add_files-append lower digit earlier (file ∷ []) [])
      ∙ ap (get (full_test_id rule_id test.number))
          (add_file-file_text rule_id directory head tests d h plain written)
      ∙ get-add_blocks_last lower digit rule_id directory before later test d last
