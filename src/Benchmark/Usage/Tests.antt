-- ===== src/Benchmark/Usage/Tests.antt =====
-- Outputs of `ps` and files of /proc that tools/qualification-benchmark.py reads.
use envoy_modsecurity.Prelude.{
  ℕ, ◌+◌, ◌*◌, ◌-◌, ◌≡◌, refl, [], Option, none, some, leb, if◌then◌else◌, ◌&&◌,
}
use envoy_modsecurity.Prelude.Int.{ℤ, pos, negsuc}
use envoy_modsecurity.Prelude.Split.{
  split, split_once, strip, drop_while, splitlines, is_line_break,
}
use envoy_modsecurity.Prelude.Text.{Str, codes, is_space, starts_with}
use envoy_modsecurity.Report.Corpus.{leading_number}
use envoy_modsecurity.Benchmark.Usage.{
  words, Seconds, status_rss, ps_rss, process_rss_bytes, floats_of, clock_total, clock_seconds,
  ps_seconds, stat_seconds, process_cpu_seconds,
}

abbrev ascii_digit : ℕ → Option ℕ
ascii_digit c = if leb b'0' c && leb c b'9' then some (c - b'0') else none

abbrev sample_number : Str → Option ℕ
sample_number s = leading_number ascii_digit s none

abbrev sample_int : Str → Option ℤ
sample_int s = elim (sample_number s) [ none ↦ none | some n ↦ some (pos n) ]

abbrev size : ℤ → ℕ
size (pos n) = n
size (negsuc n) = 0

abbrev sample_ops : Seconds ℕ
sample_ops = record {
  of_ticks = λ a b. size a + size b;
  float = sample_number;
  zero_hours = 0;
  total = λ d h m s. size d * 86400 + h * 3600 + m * 60 + s;
}

cpu_tests :
    (process_cpu_seconds sample_int sample_ops none (some (codes "1-02:03:04\n")) ≡ some 93784)
    × (process_cpu_seconds sample_int sample_ops none (some (codes "10:05")) ≡ some 605)
    × (process_cpu_seconds sample_int sample_ops none (some (codes "5")) ≡ none)
    × (process_cpu_seconds sample_int sample_ops (some (codes "a b c")) none ≡ none)
unfolding process_cpu_seconds stat_seconds ps_seconds clock_seconds clock_total floats_of words
    strip drop_while is_space split split_once leading_number
cpu_tests = (refl, refl, refl, refl)

rss_tests :
    (process_rss_bytes sample_int (some (codes "Name:\tenvoy\nVmRSS:\t  20 kB\n")) none
      ≡ some (pos 20480))
    × (process_rss_bytes sample_int (some (codes "VmRSS:")) (some (codes "1")) ≡ none)
    × (process_rss_bytes sample_int (some []) (some (codes " 2\n")) ≡ some (pos 2048))
unfolding process_rss_bytes status_rss ps_rss splitlines is_line_break starts_with words strip
    drop_while is_space leading_number
rss_tests = (refl, refl, refl)
