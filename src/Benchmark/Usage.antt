-- ===== src/Benchmark/Usage.antt =====
-- `process_rss_bytes` and `process_cpu_seconds` of tools/qualification-benchmark.py. `none` is an
-- exception. `int` is Python's `int` on a text. A file of /proc is `none` where it does not exist;
-- the output of `ps` is `none` where the call raises.
pub mod Status
mod Tests
use envoy_modsecurity.Prelude.{
  ℕ, zero, suc, ◌+◌, ◌*◌, Bool, true, false, List, [], ◌∷◌, Option, none, some, if◌then◌else◌, ◌==◌,
  nat_eq,
}
use envoy_modsecurity.Prelude.Int.{ℤ, pos, negsuc}
use envoy_modsecurity.Prelude.Lists.{get_elem?, contains}
use envoy_modsecurity.Prelude.Split.{strip, drop_while, split, split_once, splitlines, prepend}
use envoy_modsecurity.Prelude.Text.{Str, codes, is_space, starts_with}

abbrev ends_word : Str → Bool
ends_word [] = true
ends_word (c ∷ s) = is_space c

-- `s.split()`
unfoldable pub words : Str → List Str
unfolding is_space
words [] = []
words (c ∷ s) =
    let rest = words s in
    if is_space c then rest else if ends_word s then (c ∷ []) ∷ rest else prepend c rest

-- `n * 1024`
abbrev pub kibibytes : ℤ → ℤ
kibibytes (pos n) = pos (n * 1024)
kibibytes (negsuc n) = negsuc (n * 1024 + 1023)

abbrev pub then_maybe {ℓ κ} : {A : Type ℓ} {B : Type κ} → Option A → (A → Option B) → Option B
then_maybe none f = none
then_maybe (some a) f = f a

module _ (int : Str → Option ℤ) where
  -- `int(text) * 1024`
  abbrev pub int_kibibytes : Str → Option ℤ
  int_kibibytes text = then_maybe (int text) (λ n. some (kibibytes n))

  -- The loop over the lines of the status file; the outer `none` means that it returns nothing.
  unfoldable pub status_rss : List Str → Option (Option ℤ)
  unfolding starts_with words
  status_rss [] = none
  status_rss (line ∷ lines) =
      let rest = status_rss lines in
      if starts_with line (codes "VmRSS:")
      then some (then_maybe (get_elem? (words line) 1) int_kibibytes)
      else rest

  -- `int(result.stdout.strip()) * 1024`
  unfoldable pub ps_rss : Option Str → Option ℤ
  unfolding strip is_space
  ps_rss output = then_maybe output (λ text. int_kibibytes (strip is_space text))

  unfoldable pub process_rss_bytes : (status output : Option Str) → Option ℤ
  unfolding status_rss ps_rss splitlines
  process_rss_bytes none output = ps_rss output
  process_rss_bytes (some text) output =
      let from_ps = ps_rss output in
      elim (status_rss (splitlines text)) [ some found ↦ found | none ↦ from_ps ]

-- The operations on floats: `(a + b) / clock_ticks`, `float` on a text, `0`, and
-- `days * 86400 + hours * 3600 + minutes * 60 + seconds`.
pub record Seconds (F : Type 0) : Type 0 where
  pub of_ticks : ℤ → ℤ → F
  pub float : Str → Option F
  pub zero_hours : F
  pub total : (days : ℤ) → (hours minutes seconds : F) → F

module _ (int : Str → Option ℤ) {F : Type 0} (ops : Seconds F) where
  -- `[float(part) for part in parts]`
  unfoldable pub floats_of : List Str → Option (List F)
  floats_of [] = some []
  floats_of (part ∷ parts) =
      let rest = floats_of parts in
      then_maybe (ops.float part) (λ x. then_maybe rest (λ xs. some (x ∷ xs)))

  -- Three parts are hours, minutes and seconds, two have no hours, and others raise ValueError.
  unfoldable pub clock_total : ℤ → List F → Option F
  clock_total days (h ∷ m ∷ s ∷ []) = some (ops.total days h m s)
  clock_total days (m ∷ s ∷ []) = some (ops.total days ops.zero_hours m s)
  clock_total days parts = none

  unfoldable pub clock_seconds : ℤ → Str → Option F
  unfolding floats_of clock_total split
  clock_seconds days value = then_maybe (floats_of (split b':' value)) (clock_total days)

  -- The value that `ps` prints, with days before a dash or without.
  unfoldable pub ps_seconds : Str → Option F
  unfolding clock_seconds split_once
  ps_seconds value = elim (split_once b'-' value) [
    | none ↦ clock_seconds (pos 0) value
    | some (day_value, rest) ↦ then_maybe (int day_value) (λ days. clock_seconds days rest)
  ]

  -- `(int(fields[13]) + int(fields[14])) / clock_ticks`
  unfoldable pub stat_seconds : List Str → Option F
  stat_seconds fields = then_maybe (then_maybe (get_elem? fields 13) int) (λ user.
      then_maybe (then_maybe (get_elem? fields 14) int) (λ system. some (ops.of_ticks user system)))

  unfoldable pub process_cpu_seconds : (stat output : Option Str) → Option F
  unfolding stat_seconds ps_seconds words strip is_space
  process_cpu_seconds (some text) output = stat_seconds (words text)
  process_cpu_seconds none output = then_maybe output (λ text. ps_seconds (strip is_space text))
