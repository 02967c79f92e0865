-- ===== src/Compose.antt =====
-- src/utils/docker-compose.ts: stopping, starting and killing the services of a relayer, and the wait
-- for them to come back. Running a program is a parameter; the composition file's repository is the
-- argument `cwd`.
pub mod Laws
use rayls_sovereign_tests_au.Shared.{
  ℕ, ◌+◌, String, Option, none, some, Bool, true, false, not, List, [], ◌∷◌, ◌≡◌, refl, ◌++◌, keep,
  if◌then◌else◌,
}
use rayls_sovereign_tests_au.Shared.Text.{◌<>◌, show}
use rayls_sovereign_tests_au.Shared.Text.Split.{split, trim}
use rayls_sovereign_tests_au.Js.{JsError, error, Result, ok, err, Exec, and_then, or_else}
use rayls_sovereign_tests_au.Errors.{error_text}
use rayls_sovereign_tests_au.Logging.{Host, World, log}
use rayls_sovereign_tests_au.Retry.{or_default}
use rayls_sovereign_tests_au.Timed.{until_deadline, timed_result}
use text.Mathlib.Text.{◌==◌ as str_eq}

-- `execFileSync` with its arguments and its limit of time, and `stderr` of what it throws.
pub record Programs (X : Type 0) : Type 0 where
  pub exec_file : String → List String → (timeout_ms : ℕ) → Exec (World X) String
  pub stderr_of : JsError → String

pub data ComposeAction : Type 0 where
  stop : ComposeAction
  start : ComposeAction
  restart : ComposeAction
  kill : ComposeAction

abbrev pub action_text : ComposeAction → String
action_text stop = "stop"
action_text start = "start"
action_text restart = "restart"
action_text kill = "kill"

abbrev pub default_compose_file : String
default_compose_file = "docker-compose.dev-local.yml"

pub record ComposeOptions : Type 0 where
  pub timeout_ms : Option ℕ
  pub compose_file : Option String

abbrev pub default_options : ComposeOptions
default_options = record { timeout_ms = none; compose_file = none }

abbrev text_or : String → Option String → String
text_or d none = d
text_or d (some s) = s

-- `join(' ')` of an array.
abbrev pub join_spaces : List String → String
join_spaces [] = ""
join_spaces (a ∷ []) = a
join_spaces (a ∷ b ∷ as') = a <> " " <> join_spaces (b ∷ as')

-- The ids in the output of `docker compose ps -aq`: its lines that are not empty.
unfoldable pub container_ids : String → List String
container_ids output = keep (λ id. not (str_eq id "")) (split b'\n' (trim output))

container_ids_example : container_ids "4f5e\n\n07aa\n" ≡ "4f5e" ∷ "07aa" ∷ []
unfolding container_ids split trim
container_ids_example = refl

module _ {X : Type 0} (host : Host X) (programs : Programs X) (cwd : String) where
  abbrev failed_text : JsError → String
  failed_text e = text_or (host.error_string e) e.message <> " " <> programs.stderr_of e

  abbrev pub failure_line : String → JsError → String
  failure_line what e = "   " <> what <> " failed: " <> failed_text e

  -- A program is run behind a logged line.
  abbrev pub announced : String → List String → ℕ → Exec (World X) String
  announced binary args timeout_ms w =
      programs.exec_file binary args timeout_ms
        (log ("   compose: " <> binary <> " " <> join_spaces args <> "  (cwd=" <> cwd <> ")") w)

  -- What the program throws is logged and thrown again.
  abbrev pub run_logged : String → String → List String → ℕ → Exec (World X) String
  run_logged what binary args timeout_ms w =
      or_else (announced binary args timeout_ms w) (λ e v. (err e, log (failure_line what e) v))

  -- Resumes the containers that there are, or creates one.
  abbrev pub start_found : String → String → ℕ → List String → Exec (World X) String
  start_found service compose_file timeout_ms [] w =
      run_logged ("start " <> service) "docker"
        ("compose" ∷ "-f" ∷ compose_file ∷ "up" ∷ "-d" ∷ "--no-deps" ∷ service ∷ []) timeout_ms w
  start_found service compose_file timeout_ms (id ∷ ids) w =
      run_logged ("start " <> service) "docker" ("start" ∷ id ∷ ids) timeout_ms w

  -- The look-up of the containers is not logged.
  abbrev pub list_containers : (service compose_file : String) → ℕ → Exec (World X) String
  list_containers service compose_file timeout_ms =
      programs.exec_file "docker" ("compose" ∷ "-f" ∷ compose_file ∷ "ps" ∷ "-aq" ∷ service ∷ [])
        timeout_ms

  unfoldable pub start_service :
      (service compose_file : String) (timeout_ms : ℕ) → Exec (World X) (Unit {0})
  unfolding container_ids
  start_service service compose_file timeout_ms w =
      and_then (list_containers service compose_file timeout_ms w) (λ output v.
        and_then (start_found service compose_file timeout_ms (container_ids output) v)
          (λ printed u. (ok tt, u)))

  abbrev pub other_action :
      ComposeAction → (service compose_file : String) → ℕ → Exec (World X) String
  other_action action service compose_file =
      run_logged ("compose " <> action_text action <> " " <> service) "docker"
        ("compose" ∷ "-f" ∷ compose_file ∷ action_text action ∷ service ∷ [])

  unfoldable pub compose_action :
      ComposeAction → String → ComposeOptions → Exec (World X) (Unit {0})
  compose_action start service opts w =
      start_service service (text_or default_compose_file opts.compose_file)
        (or_default opts.timeout_ms 120000) w
  compose_action action service opts w =
      and_then
        (other_action action service (text_or default_compose_file opts.compose_file)
          (or_default opts.timeout_ms 120000) w)
        (λ printed v. (ok tt, v))

  -- The methods of `compose`: a restart is a stop and a start.
  unfoldable pub compose : ComposeAction → String → Exec (World X) (Unit {0})
  compose restart service w =
      and_then (compose_action stop service default_options w)
        (λ stopped. compose_action start service default_options)
  compose action service w = compose_action action service default_options w

  -- Whatever a start throws is dropped.
  unfoldable pub ensure_running : List String → World X → World X
  ensure_running [] w = w
  ensure_running (service ∷ services) w = ensure_running services (compose start service w).1

-- A probe that throws is one that is not ready.
abbrev pub ready_answer : {X : Type 0} → Result Bool × X → Bool × X
ready_answer (ok b, x) = (b, x)
ready_answer (err e, x) = (false, x)

abbrev pub is_ready : {X : Type 0} → Exec X Bool → X → Bool × X
is_ready ready x = ready_answer (ready x)

unfoldable pub wait_for_compose :
    {X : Type 0}
    → Host X
    → Exec X Bool
    → (timeout_ms poll_ms : ℕ) → X
    → Option (Result (Unit {0})) × X
wait_for_compose host ready timeout_ms poll_ms x =
    timed_result
      (error ("waitForCompose: readiness check did not pass within " <> show timeout_ms <> "ms"))
      (until_deadline host (is_ready ready) timeout_ms poll_ms x)
