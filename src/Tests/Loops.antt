-- ===== src/Tests/Loops.antt =====
-- Runs of the loops that retry, poll and wait.
use rayls_sovereign_tests_au.Shared.{
  ℕ, ◌+◌, String, Option, none, some, [], ◌∷◌, false, ◌≡◌, ◌↔◌, refl, arith,
}
use rayls_sovereign_tests_au.Js.{error, ok, err}
use rayls_sovereign_tests_au.Logging.{World, Load, load, load_success}
use rayls_sovereign_tests_au.Retry.{RetryOptions, retry}
use rayls_sovereign_tests_au.Retry.Laws.{retry_iff_Outcome}
use rayls_sovereign_tests_au.Retry.Runs.{Outcome as RetryOutcome}
use rayls_sovereign_tests_au.Polling.{PollOptions, eventually, never}
use rayls_sovereign_tests_au.Polling.Runs.{Outcome as PollOutcome, start, threw}
use rayls_sovereign_tests_au.Polling.Waits.{Ends, eventually_iff, never_iff}
use rayls_sovereign_tests_au.Polling.Loads.{active_loads-eventually_threw}
use rayls_sovereign_tests_au.Tests.{clock_host, new_world, flaky, growing, is_found}

abbrev plain_retry : {S : Type 0} → RetryOptions S
plain_retry = record { attempts = some 4; delay_ms = some 1000; retry_if = none; on_retry = none }

retry_iff_Outcome_example :
    (retry (λ ms x. x + ms) plain_retry flaky 0 ≡ (ok 3000, 3000))
    ↔ RetryOutcome (λ ms x. x + ms) plain_retry flaky 4 1 0 (ok 3000, 3000)
retry_iff_Outcome_example =
    retry_iff_Outcome (λ ms x. x + ms) plain_retry flaky 0 (ok 3000, 3000) (omega arith)

abbrev growing_options : PollOptions (World ℕ) (Option ℕ)
growing_options = record {
  check = λ w. ((growing w.outside).0, w);
  interval = some 500;
  attempts = some 10;
  tolerate_errors = false;
}

abbrev json : Option ℕ → String
json o = "value"

eventually_iff_example :
    (eventually clock_host 1 is_found json "block" growing_options new_world
      ≡ (ok (some 2000), new_world))
    ↔ ((t : World ℕ) × Ends clock_host 1 is_found json "block" growing_options new_world
          (ok (some (some 2000)), t)
        × (new_world ≡ load_success clock_host (load clock_host "block" new_world).0 t))
eventually_iff_example =
    eventually_iff clock_host 1 is_found json "block" growing_options new_world new_world
      (some 2000)

never_iff_example :
    (never clock_host 1 is_found json "block" growing_options new_world ≡ (ok tt, new_world)) ↔ (
      (t : World ℕ) × Ends clock_host 1 is_found json "block" growing_options new_world (ok none, t)
      × (new_world ≡ load_success clock_host (load clock_host "block" new_world).0 t))
never_iff_example = never_iff clock_host 1 is_found json "block" growing_options new_world new_world

abbrev throwing : PollOptions (World ℕ) (Option ℕ)
throwing = record growing_options { check = λ w. (err (error "no such contract"), w) }

active_loads-eventually_threw_example :
    (entry : Load) × ((eventually clock_host 1 is_found json "block" throwing
        new_world).1.logger.active_loads
      ≡ (0, entry) ∷ [])
    × (entry.message ≡ "block")
active_loads-eventually_threw_example =
    active_loads-eventually_threw clock_host 1 is_found json "block" throwing (λ w. refl) new_world
      (load clock_host "block" new_world).1 (error "no such contract")
      (threw start (omega arith) refl refl)
