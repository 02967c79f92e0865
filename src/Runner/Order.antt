-- ===== src/Runner/Order.antt =====
-- `_loadDurationHints` and `_sortByExpectedDuration` of scripts/runners/base-parallel-runner.js.
use rayls_sovereign_tests_au.Shared.{
  ℕ, String, Option, none, some, Bool, true, false, not, ◌&&◌, ◌||◌, ltb, List, [], ◌∷◌, keep, ◌≡◌,
  refl, if◌then◌else◌,
}
use rayls_sovereign_tests_au.Shared.Text.Split.{split}
use rayls_sovereign_tests_au.Js.{Result, ok}
use text.Mathlib.Text.{◌==◌ as str_eq}

-- A file's entry in the last report; `none` is a missing property.
pub record TestResult : Type 0 where
  pub full_file : Option String
  pub duration : Option ℕ
  pub failures : Option ℕ
  pub pending : Option ℕ

abbrev last_of : String → List String → String
last_of d [] = d
last_of d (s ∷ ss) = last_of s ss

-- `path.basename`: the last part of a path that is not empty.
unfoldable pub basename : String → String
basename path = last_of "" (keep (λ part. not (str_eq part "")) (split b'/' path))

basename_example : basename "test/e2e/payments.test.ts" ≡ "payments.test.ts"
unfolding basename split
basename_example = refl

-- The entries of the map of hints, the last one set first.
abbrev pub Hints : Type 0
Hints = List (String × ℕ)

abbrev pub hint_of : Hints → String → Option ℕ
hint_of [] name = none
hint_of ((key, ms) ∷ hints) name = if str_eq key name then some ms else hint_of hints name

abbrev is_positive : Option ℕ → Bool
is_positive none = false
is_positive (some n) = ltb 0 n

abbrev has_failed : TestResult → Bool
has_failed r = is_positive r.failures || is_positive r.pending

-- One round of the loop over the results.
abbrev hint_step : TestResult → (full_file : Option String) (duration : Option ℕ) → Hints → Hints
hint_step r (some file) (some ms) hints =
    if not (str_eq file "") && not (has_failed r) then (basename file, ms) ∷ hints else hints
hint_step r _ _ hints = hints

unfoldable pub collect_hints : List TestResult → Hints → Hints
unfolding basename
collect_hints [] hints = hints
collect_hints (r ∷ rs) hints = collect_hints rs (hint_step r r.full_file r.duration hints)

-- The last report: there is none, reading it throws, or it has results.
unfoldable pub load_duration_hints : Option (Result (Option (List TestResult))) → Hints
load_duration_hints (some (ok (some results))) = collect_hints results []
load_duration_hints _ = []

-- Whether the first of two durations is greater; an unknown one counts as infinite.
abbrev pub longer : Option ℕ → Option ℕ → Bool
longer none none = false
longer none (some b) = true
longer (some a) none = false
longer (some a) (some b) = ltb b a

-- `sort` is stable: an element passes those in front of it that have to be behind it, and no others.
module _ (goes_first : String → String → Bool) where
  abbrev pub insert : String → List String → List String
  insert a [] = a ∷ []
  insert a (b ∷ bs) = let rest = insert a bs in if goes_first b a then b ∷ rest else a ∷ b ∷ bs

  unfoldable pub sort_with : List String → List String
  sort_with [] = []
  sort_with (a ∷ as') = insert a (sort_with as')

abbrev pub by_duration : (String → Option ℕ) → String → String → Bool
by_duration duration b a = longer (duration b) (duration a)

-- `hints[path.basename(a)] ?? Infinity`.
unfoldable pub expected_duration : Hints → String → Option ℕ
unfolding basename
expected_duration hints file = hint_of hints (basename file)

unfoldable pub sort_by_expected_duration :
    Option (Result (Option (List TestResult))) → List String → List String
unfolding load_duration_hints sort_with
sort_by_expected_duration report files =
    sort_with (by_duration (expected_duration (load_duration_hints report))) files
