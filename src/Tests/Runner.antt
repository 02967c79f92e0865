-- ===== src/Tests/Runner.antt =====
-- Runs of the queue of the parallel test runner: concrete files, slots and codes.
use mathlib.Core.List.{Memᴰ}
use rayls_sovereign_tests_au.Shared.{
  ℕ, zero, suc, ◌+◌, ◌≤◌, ◌<◌, some, [], ◌∷◌, ◌≡◌, ◌⊎◌, refl, arith,
}
use rayls_sovereign_tests_au.Runner.Queue.{
  Plan, Queue, finished, wake, closes, Reach, start, later, first_state, AllFinished, pull, close,
}
use rayls_sovereign_tests_au.Runner.Queue.Dispatch.{
  countdown, started_files, handed_out, started_files-countdown,
}
use rayls_sovereign_tests_au.Runner.Queue.Work.{steps, GoesOn, phase_ends}
use rayls_sovereign_tests_au.Runner.Queue.Accounts.{HasClosed}
use rayls_sovereign_tests_au.Runner.Queue.Verdict.{finished-HasClosed, finished-passed, bail-stops}
use rayls_sovereign_tests_au.Runner.Queue.Reports.{Distinct, children-Distinct}

abbrev three_files : Plan
three_files = record {
  files = "a.test.ts" ∷ "b.test.ts" ∷ "c.test.ts" ∷ [];
  flags = "--bail" ∷ [];
  worker_count = 2;
}

-- Both slots have started a file.
abbrev both_started : Queue
both_started = pull three_files 1 0 (pull three_files 0 0 first_state)

both_started-Reach : Reach three_files both_started
unfolding pull
both_started-Reach = later (later start (wake 0 (omega arith) refl)) (wake 1 (omega arith) refl)

-- The second slot passes its file and takes the last one.
abbrev third_started : Queue
third_started = close three_files 1 0 1 (some 0) 20 both_started

third_started-Reach : Reach three_files third_started
unfolding pull close
third_started-Reach = later both_started-Reach (closes 1 0 1 (some 0) 20 (omega arith) refl)

-- The first slot's file fails, and the phase is given up.
abbrev first_failed : Queue
first_failed = close three_files 0 0 0 (some 2) 30 third_started

first_failed-Reach : Reach three_files first_failed
unfolding pull close
first_failed-Reach = later third_started-Reach (closes 0 0 0 (some 2) 30 (omega arith) refl)

-- The three children pass instead.
abbrev all_passed : Queue
all_passed =
    close three_files 0 1 2 (some 0) 5
      (close three_files 1 0 1 (some 0) 9 (close three_files 0 0 0 (some 0) 7 both_started))

all_passed-Reach : Reach three_files all_passed
unfolding pull close
all_passed-Reach =
    later
      (later (later both_started-Reach (closes 0 0 0 (some 0) 7 (omega arith) refl))
        (closes 1 0 1 (some 0) 9 (omega arith) refl))
      (closes 0 1 2 (some 0) 5 (omega arith) refl)

below_two : (P : ℕ → Type 0) → P 0 → P 1 → (i : ℕ) → i < 2 → P i
below_two P a b zero h = a
below_two P a b (suc zero) h = b
below_two P a b (suc (suc i)) h = absurd (omega arith)

all_passed-AllFinished : AllFinished three_files all_passed
unfolding pull close
all_passed-AllFinished = below_two (λ i. all_passed.slots i ≡ finished) refl refl

started_files-countdown_example :
    started_files third_started ≡ countdown (handed_out three_files third_started)
started_files-countdown_example =
    started_files-countdown three_files third_started third_started-Reach

phase_ends_example :
    (steps three_files third_started-Reach ≤ 3 + 2)
    × (AllFinished three_files third_started
        ⊎ ((i : ℕ) × (i < 2) × GoesOn three_files third_started i))
phase_ends_example = phase_ends three_files third_started third_started-Reach

finished-HasClosed_example :
    (started_files all_passed ≡ countdown 3)
    × ((k : ℕ) → k < 3 → HasClosed three_files all_passed k)
unfolding pull close
finished-HasClosed_example =
    finished-HasClosed three_files all_passed (omega arith) all_passed-Reach all_passed-AllFinished
      refl

finished-passed_example : Memᴰ (2, some 0) all_passed.closed
unfolding pull close
finished-passed_example =
    finished-passed three_files all_passed (omega arith) all_passed-Reach all_passed-AllFinished
      refl 2 (omega arith)

bail-stops_example :
    (close three_files 1 1 2 (some 0) 4 first_failed).children ≡ first_failed.children
unfolding pull close
bail-stops_example =
    bail-stops three_files first_failed (close three_files 1 1 2 (some 0) 4 first_failed) refl
      first_failed-Reach (omega arith) (closes 1 1 2 (some 0) 4 (omega arith) refl)

children-Distinct_example : Distinct all_passed.children
children-Distinct_example = children-Distinct three_files all_passed all_passed-Reach
