-- ===== src/Tests/Launch.antt =====
-- Runs of the command line, the order of the files and the phases of the parallel test runner.
use mathlib.Core.List.{Perm}
use rayls_sovereign_tests_au.Shared.{
  ℕ, zero, suc, ◌+◌, ◌≤◌, ◌<◌, min, String, Option, none, some, Bool, true, false, List, [], ◌∷◌,
  length, AllOf, ◌≡◌, ◌⊎◌, refl, arith,
}
use rayls_sovereign_tests_au.Shared.Text.{int}
use rayls_sovereign_tests_au.Js.{Result, ok}
use rayls_sovereign_tests_au.Runner.Queue.{pull, close}
use rayls_sovereign_tests_au.Runner.Queue.Work.{settle}
use rayls_sovereign_tests_au.Runner.Order.{
  TestResult, sort_by_expected_duration, expected_duration, load_duration_hints,
}
use rayls_sovereign_tests_au.Runner.OrderLaws.{
  LongestFirst, of_duration, sort_by_expected_duration-perm,
}
use rayls_sovereign_tests_au.Runner.Flags.{dedupe_flags, script_tokens}
use rayls_sovereign_tests_au.Runner.Options.{bail, grep, other, command_words}
use rayls_sovereign_tests_au.Runner.FlagsLaws.{dedupe_flags-distinct_options}
use rayls_sovereign_tests_au.Runner.Words.{quote_words, AllPushed, script_tokens-quote_words}
use rayls_sovereign_tests_au.Runner.Phases.{
  Outside, Settings, Partition, resolve_files, run, matched, script_of, from_package, run_partition,
  behind_serial, behind_recovery, plan_of,
}
use rayls_sovereign_tests_au.Runner.PhasesLaws.{
  SlotsSettle, SerialPassed, ParallelPassed, run-passed,
}
use rayls_sovereign_tests_au.Shared.{ap, sym, subst, ◌∙◌, ◌≢◌, ◌-◌, if◌then◌else◌}

abbrev passed_result : (full_file : String) (duration : ℕ) → TestResult
passed_result file ms = record {
  full_file = some file;
  duration = some ms;
  failures = some 0;
  pending = some 0;
}

abbrev last_report : Option (Result (Option (List TestResult)))
last_report =
    some (ok (some (passed_result "/repo/test/a.ts" 7 ∷ passed_result "/repo/test/b.ts" 90 ∷ [])))

abbrev given_files : List String
given_files = "test/a.ts" ∷ "test/b.ts" ∷ "test/new.ts" ∷ []

sort_by_expected_duration-perm_example :
    Perm (sort_by_expected_duration last_report given_files) given_files
    × LongestFirst
        (expected_duration (load_duration_hints last_report))
        (sort_by_expected_duration last_report given_files)
    × ((d : Option ℕ)
        → of_duration
            (expected_duration (load_duration_hints last_report))
            d
            (sort_by_expected_duration last_report given_files)
          ≡ of_duration (expected_duration (load_duration_hints last_report)) d given_files)
sort_by_expected_duration-perm_example = sort_by_expected_duration-perm last_report given_files

sorted_files :
    sort_by_expected_duration last_report given_files
    ≡ "test/new.ts" ∷ "test/b.ts" ∷ "test/a.ts" ∷ []
unfolding sort_by_expected_duration expected_duration
    rayls_sovereign_tests_au.Runner.Order.collect_hints
    rayls_sovereign_tests_au.Shared.Text.Split.split
sorted_files = refl

dedupe_flags-distinct_options_example :
    dedupe_flags (command_words (bail ∷ grep "@a" ∷ other "--network" ∷ bail ∷ grep "@b" ∷ []))
    ≡ "--bail" ∷ "--network" ∷ "--grep" ∷ "@b" ∷ []
dedupe_flags-distinct_options_example =
    dedupe_flags-distinct_options (bail ∷ grep "@a" ∷ other "--network" ∷ bail ∷ grep "@b" ∷ [])
      (tt, ((refl, refl), ((refl, refl), (tt, ((refl, refl), tt)))))

script_tokens-quote_words_example :
    AllPushed
      ("hardhat" ∷ "test" ∷ "a b" ∷ "" ∷ [])
      (script_tokens (quote_words ("hardhat" ∷ "test" ∷ "a b" ∷ "" ∷ [])))
script_tokens-quote_words_example =
    script_tokens-quote_words ("hardhat" ∷ "test" ∷ "a b" ∷ "" ∷ [])
      (refl, (refl, (refl, (refl, tt))))

-- The state counts what is done outside; every child closes with code 0.
abbrev outside : Outside ℕ
outside = record {
  script = λ name. some "hardhat test 'test/*.ts' --bail";
  glob = λ pattern. "test/b.ts" ∷ "test/a.ts" ∷ [];
  report = λ s. none;
  run_child = λ command env s. (some 0, suc s);
  run_slots = λ p s. ((settle p (λ k. some 0)).0, suc s);
  merge_reports = suc;
  docker = record { ps = λ command timeout s. (ok "", suc s); pause = λ ms s. s };
}

abbrev settings : Settings
settings = record {
  worker_count = int false 2;
  skip_bootstrap = false;
  source_args = "test:e2e" ∷ [];
  cli_extra_flags = [];
  min_uptime_ms = 120000;
}

abbrev first_serial : List String → Partition
first_serial [] = record { parallel = []; serial = [] }
first_serial (f ∷ fs) = record { parallel = fs; serial = f ∷ [] }

outside-SlotsSettle : SlotsSettle outside settings
outside-SlotsSettle p s = ((settle p (λ k. some 0)).1, (settle p (λ k. some 0)).2)

run-passed_example :
    (files flags : List String) × (resolve_files outside.script outside.glob settings
      ≡ ok (files, flags))
    × SerialPassed outside settings flags ((first_serial files).serial)
    × ParallelPassed outside settings flags ((first_serial files).parallel)
unfolding run matched script_of from_package run_partition behind_serial behind_recovery
    rayls_sovereign_tests_au.Shared.Text.Split.split rayls_sovereign_tests_au.Shared.Text.includes
    settle plan_of pull close
run-passed_example =
    run-passed outside settings 3 first_serial 0 5 outside-SlotsSettle (omega arith) refl
