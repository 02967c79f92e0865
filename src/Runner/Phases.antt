-- ===== src/Runner/Phases.antt =====
-- The phases of a run of scripts/runners/base-parallel-runner.js: `resolveFiles`, `bootstrap`,
-- `runSerial`, the recovery of the relayers, `runParallelWithQueue` and `run`. What is printed is left
-- out. A `process.exit(1)` is an error with the text that is printed before it.
use rayls_sovereign_tests_au.Shared.{
  ℕ, String, Option, none, some, Bool, true, false, not, ◌||◌, leb, ltb, List, [], ◌∷◌, ◌++◌, keep,
  ◌==◌, if◌then◌else◌,
}
use rayls_sovereign_tests_au.Shared.Text.{◌<>◌, codes, includes, ParsedInt, nan, int, show_int}
use rayls_sovereign_tests_au.Js.{Result, ok, err, Exec, and_then}
use rayls_sovereign_tests_au.Compose.{join_spaces}
use rayls_sovereign_tests_au.Runner.Queue.{Plan, Queue, Failure, is_success, contains_text}
use rayls_sovereign_tests_au.Runner.Order.{TestResult, sort_with, sort_by_expected_duration}
use rayls_sovereign_tests_au.Runner.Flags.{
  Script, parse_hardhat_script, is_script_name, dedupe_flags, exit_with,
}
use rayls_sovereign_tests_au.Runner.Recovery.{Docker, await_relayer_recovery}

-- What a run takes from outside: the scripts of package.json, the files that a pattern matches, the
-- last report, a child process with its added environment and the code of its `close`, the slots of a
-- parallel phase until all of them have finished, the merging of reports, and docker.
pub record Outside (S : Type 0) : Type 0 where
  pub script : String → Option String
  pub glob : String → List String
  pub report : S → Option (Result (Option (List TestResult)))
  pub run_child : (command : String) (extra_env : List (String × String)) → S → Option ℕ × S
  pub run_slots : Plan → S → Queue × S
  pub merge_reports : S → S
  pub docker : Docker S

-- The settings of the constructor.
pub record Settings : Type 0 where
  pub worker_count : ParsedInt
  pub skip_bootstrap : Bool
  pub source_args : List String
  pub cli_extra_flags : List String
  pub min_uptime_ms : ℕ

pub record Partition : Type 0 where
  pub parallel : List String
  pub serial : List String

-- `new Set` of an array: the first of equal texts.
unfoldable pub unique : List String → List String
unique [] = []
unique (a ∷ as') = a ∷ keep (λ b. not (contains_text b (a ∷ []))) (unique as')

-- The order of `sort` without a comparison, for texts without characters above 0xffff.
abbrev pub text_before : List ℕ → List ℕ → Bool
text_before _ [] = false
text_before [] (d ∷ ds) = true
text_before (c ∷ cs) (d ∷ ds) = ltb c d || (if c == d then text_before cs ds else false)

abbrev pub goes_before : String → String → Bool
goes_before a b = text_before (codes a) (codes b)

abbrev pub flat_map : (String → List String) → List String → List String
flat_map f [] = []
flat_map f (a ∷ as') = f a ++ flat_map f as'

-- `!scriptCmd`: an empty command is none.
unfoldable pub from_package : (name : String) → Option String → Result Script
unfolding parse_hardhat_script
from_package name (some cmd) =
    if contains_text "" (cmd ∷ [])
    then err (exit_with ("Script \"" <> name <> "\" not found in package.json"))
    else parse_hardhat_script cmd
from_package name none = err (exit_with ("Script \"" <> name <> "\" not found in package.json"))

-- The patterns and the flags of the script, or the arguments as patterns.
unfoldable pub script_of : (String → Option String) → List String → Result Script
unfolding is_script_name
script_of scripts (a ∷ []) =
    if is_script_name a
    then from_package a (scripts a)
    else ok (record { globs = a ∷ []; flags = [] })
script_of scripts args = ok (record { globs = args; flags = [] })

unfoldable pub matched :
    (String → List String) → Settings → Result Script → Result (List String × List String)
unfolding unique sort_with dedupe_flags
matched glob settings (err e) = err e
matched glob settings (ok s) = elim (sort_with goes_before (unique (flat_map glob s.globs))) [
  | [] ↦ err (exit_with "No test files matched the provided patterns")
  | f ∷ fs ↦ ok (f ∷ fs, dedupe_flags (s.flags ++ settings.cli_extra_flags))
]

-- The files, and the flags that are set on the way.
unfoldable pub resolve_files :
    (String → Option String)
    → (String → List String)
    → Settings
    → Result (List String × List String)
resolve_files scripts glob settings = matched glob settings (script_of scripts settings.source_args)

-- `partitionFiles` of the two runners, by the content of the files.
unfoldable pub e2e_partition : (content : String → String) → List String → Partition
e2e_partition content [] = record { parallel = []; serial = [] }
e2e_partition content (f ∷ fs) =
    let rest = e2e_partition content fs in
    if includes (codes "@serial") (codes (content f))
    then record rest { serial = f ∷ rest.serial }
    else record rest { parallel = f ∷ rest.parallel }

unfoldable pub smoke_partition : (content : String → String) → List String → Partition
smoke_partition content fs = record {
  parallel = keep (λ f. includes (codes "@smoke") (codes (content f))) fs;
  serial = [];
}

-- `Array.from` with the parsed number as its length.
abbrev pub slot_count : ParsedInt → ℕ
slot_count nan = 0
slot_count (int true n) = 0
slot_count (int false n) = n

-- `workerCount <= 1`.
abbrev pub at_most_one : ParsedInt → Bool
at_most_one nan = false
at_most_one (int true n) = true
at_most_one (int false n) = leb n 1

module _ {S : Type 0} (out : Outside S) (settings : Settings) where
  abbrev pub worker_env : (id : String) → List (String × String)
  worker_env id =
      ("MOCHA_WORKER_ID", id) ∷ ("PARALLEL_WORKERS", show_int settings.worker_count) ∷ []

  abbrev bootstrap_result : Option ℕ × S → Result (Unit {0}) × S
  bootstrap_result (code, s) =
      if is_success code then (ok tt, s) else (err (exit_with "Bootstrap failed — aborting run"), s)

  unfoldable pub bootstrap : Exec S (Unit {0})
  bootstrap s =
      if settings.skip_bootstrap
      then (ok tt, s)
      else if at_most_one settings.worker_count
      then (ok tt, s)
      else bootstrap_result (
          out.run_child "npx hardhat run scripts/runners/bootstrap-worker-wallets.ts --no-compile"
            (worker_env "bootstrap") s)

  abbrev pub serial_command : (flags files : List String) → String
  serial_command flags files = join_spaces ("npx" ∷ "hardhat" ∷ "test" ∷ files ++ flags)

  abbrev pub serial_result : Option ℕ × S → Result (Unit {0}) × S
  serial_result (code, s) = if is_success code then (ok tt, s) else (
    err (exit_with "Serial phase failed — aborting before parallel phase"),
    out.merge_reports s,
  )

  unfoldable pub run_serial : (flags serial_files : List String) → Exec S (Unit {0})
  run_serial flags [] s = (ok tt, s)
  run_serial flags (f ∷ fs) s =
      serial_result (out.run_child (serial_command flags (f ∷ fs)) (worker_env "serial") s)

  unfoldable pub plan_of : (flags parallel_files : List String) → S → Plan
  unfolding sort_by_expected_duration
  plan_of flags files s = record {
    files = sort_by_expected_duration (out.report s) files;
    flags = flags;
    worker_count = slot_count settings.worker_count;
  }

  -- What follows the end of all slots.
  abbrev pub parallel_result : List Failure → S → Result (Unit {0}) × S
  parallel_result [] s = (ok tt, s)
  parallel_result (f ∷ fs) s = (err (exit_with "parallel files failed"), out.merge_reports s)

  abbrev pub judge_slots : Queue × S → Result (Unit {0}) × S
  judge_slots (q, s) = parallel_result q.failures s

  unfoldable pub run_parallel_with_queue : (flags parallel_files : List String) → Exec S (Unit {0})
  unfolding sort_by_expected_duration
  run_parallel_with_queue flags [] s = (ok tt, s)
  run_parallel_with_queue flags (f ∷ fs) s =
      judge_slots (out.run_slots (plan_of flags (f ∷ fs) s) s)

  -- Behind the serial phase; `none` if the relayers have not recovered within the fuel.
  unfoldable pub behind_recovery :
      (flags parallel_files : List String) → Option S → Option (Result (Unit {0}) × S)
  unfolding run_parallel_with_queue
  behind_recovery flags files none = none
  behind_recovery flags files (some s) =
      some
        (and_then (run_parallel_with_queue flags files s) (λ done t. (ok tt, out.merge_reports t)))

  unfoldable pub behind_serial :
      (fuel : ℕ) (flags parallel_files : List String)
      → Result (Unit {0}) × S
      → Option (Result (Unit {0}) × S)
  unfolding await_relayer_recovery
  behind_serial fuel flags files (err e, s) = some (err e, s)
  behind_serial fuel flags files (ok done, s) =
      behind_recovery flags files (await_relayer_recovery out.docker settings.min_uptime_ms fuel s)

  unfoldable pub run_partition :
      (fuel : ℕ) (flags : List String) → Partition → S → Option (Result (Unit {0}) × S)
  unfolding bootstrap run_serial
  run_partition fuel flags parts s =
      behind_serial fuel flags parts.parallel
        (and_then (bootstrap s) (λ done. run_serial flags parts.serial))

  abbrev pub run_resolved :
      (fuel : ℕ)
      → (List String → Partition)
      → Result (List String × List String)
      → S
      → Option (Result (Unit {0}) × S)
  run_resolved fuel partition (err e) s = some (err e, s)
  run_resolved fuel partition (ok (files, flags)) s = run_partition fuel flags (partition files) s

  unfoldable pub run : (fuel : ℕ) → (List String → Partition) → S → Option (Result (Unit {0}) × S)
  unfolding resolve_files
  run fuel partition s = run_resolved fuel partition (resolve_files out.script out.glob settings) s

  -- The constructor, which ends the process without arguments, and then `run`.
  unfoldable pub launch :
      (fuel : ℕ) → (List String → Partition) → S → Option (Result (Unit {0}) × S)
  unfolding run
  launch fuel partition s = elim settings.source_args [
    | [] ↦ some (err (exit_with "Usage: node <runner> <glob...|script-name> [-- --grep @smoke]"), s)
    | a ∷ as' ↦ run fuel partition s
  ]
