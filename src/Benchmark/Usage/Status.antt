-- ===== src/Benchmark/Usage/Status.antt =====
-- `process_rss_bytes` (tools/qualification-benchmark.py) on the status file that Linux writes.
use envoy_modsecurity.Prelude.{
  ℕ, true, false, ◌≡◌, refl, ap, ◌∙◌, List, [], ◌∷◌, ◌++◌, Option, some, arith,
}
use envoy_modsecurity.Prelude.Int.{ℤ}
use envoy_modsecurity.Prelude.Lists.{any, is_empty}
use envoy_modsecurity.Prelude.Text.{Str, codes, is_space, starts_with}
use envoy_modsecurity.Benchmark.Usage.{words, kibibytes, status_rss}

-- A word before white space is split off.
words-append :
    (word : Str) (space : ℕ) (s : Str)
    → is_empty word ≡ false
    → any is_space word ≡ false
    → is_space space ≡ true
    → words (word ++ space ∷ s) ≡ word ∷ words s
unfolding words any
words-append [] space s h k sp = absurd (ground arith)
words-append (c ∷ []) space s h k sp = ground arith
words-append (c ∷ d ∷ word) space s h k sp = ground (arith, words-append (d ∷ word) space s refl)

words_space : (space : ℕ) (s : Str) → is_space space ≡ true → words (space ∷ s) ≡ words s
unfolding words
words_space space s h = rw h refl

abbrev pub rss_line : Str → Str
rss_line number = codes "VmRSS:" ++ b'\t' ∷ (number ++ codes " kB")

kb_word : words (codes "kB") ≡ codes "kB" ∷ []
unfolding words is_space
kb_word = refl

label_word :
    (any is_space (codes "VmRSS:") ≡ false) × (is_space b'\t' ≡ true) × (is_space b' ' ≡ true)
unfolding any is_space
label_word = (refl, refl, refl)

words-rss_line :
    (number : Str)
    → is_empty number ≡ false
    → any is_space number ≡ false
    → words (rss_line number) ≡ codes "VmRSS:" ∷ number ∷ codes "kB" ∷ []
words-rss_line number h k =
    words-append (codes "VmRSS:") b'\t' (number ++ codes " kB") refl label_word.0 label_word.1
    ∙ ap (◌∷◌ (codes "VmRSS:"))
        (words-append number b' ' (codes "kB") h k label_word.2 ∙ ap (◌∷◌ number) kb_word)

module _ (int : Str → Option ℤ) where
  abbrev pub NoRss : List Str → Type 0
  NoRss [] = Unit
  NoRss (line ∷ lines) = (starts_with line (codes "VmRSS:") ≡ false) × NoRss lines

  -- The resident memory is what the first line `VmRSS:` of the status file says, in kibibytes, with
  -- any lines around it, if `int` reads its number, which has no white space.
  pub status_rss-rss_line :
      (before after : List Str) (number : Str) {n : ℤ}
      → NoRss before
      → is_empty number ≡ false
      → any is_space number ≡ false
      → int number ≡ some n
      → status_rss int (before ++ rss_line number ∷ after) ≡ some (some (kibibytes n))
  unfolding status_rss starts_with
  status_rss-rss_line [] after number h some_digit one_word read =
      ground (arith, words-rss_line number some_digit one_word, read)
  status_rss-rss_line (line ∷ before) after number (h, rest) some_digit one_word read =
      ground (arith, status_rss-rss_line before after number rest some_digit one_word read)
