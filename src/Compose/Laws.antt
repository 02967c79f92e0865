-- ===== src/Compose/Laws.antt =====
-- How the wait for a composition ends, and which programs a start runs.
use rayls_sovereign_tests_au.Shared.{
  ℕ, ◌+◌, ◌<◌, ◌≡◌, refl, String, Bool, false, ◌&&◌, ◌||◌, List, [], ◌∷◌,
}
use rayls_sovereign_tests_au.Js.{Result, ok, err, Exec, and_then, or_else}
use rayls_sovereign_tests_au.Logging.{Host, World, log}
use rayls_sovereign_tests_au.Timed.{until_deadline}
use rayls_sovereign_tests_au.Timed.Laws.{RunsForward, until_deadline_ends}
use rayls_sovereign_tests_au.Faults.Liveness.{Returns, timed_result-Returns}
use text.Mathlib.Text.{◌==◌ as str_eq}
use rayls_sovereign_tests_au.Compose.{
  Programs, ComposeAction, stop, start, restart, kill, default_options, run_logged, start_found,
  announced, failure_line, list_containers, other_action, default_compose_file, container_ids,
  start_service, compose_action, compose, is_ready, wait_for_compose,
}

module _ {X : Type 0} (host : Host X) (ready : Exec X Bool) (poll_ms : ℕ) (pos : 0 < poll_ms) where
  -- If the clock runs forward and the pause is not zero, `wait_for_compose` always ends: it returns
  -- behind a readiness probe that gave true and was begun before the deadline, after probes that gave
  -- false or threw, or it throws once the deadline is reached.
  pub wait_for_compose_ends :
      (timeout_ms : ℕ) (x : X)
      → RunsForward host (is_ready ready)
      → Returns host
          (is_ready ready)
          poll_ms
          (host.now x + timeout_ms)
          x
          (wait_for_compose host ready timeout_ms poll_ms x)
  unfolding wait_for_compose
  wait_for_compose_ends timeout_ms x forward =
      timed_result-Returns host (is_ready ready) poll_ms (host.now x + timeout_ms) x _
        (until_deadline host (is_ready ready) timeout_ms poll_ms x)
        (until_deadline_ends host (is_ready ready) poll_ms forward pos timeout_ms x)

abbrev done_at : {X : Type 0} → World X → Result (Unit {0}) × World X
done_at w = (ok tt, w)

-- Compose's own `start` and `restart`, which walk the graph of a service's dependencies.
abbrev verb_walks : List String → Bool
verb_walks (flag ∷ file ∷ verb ∷ rest) = str_eq verb "start" || str_eq verb "restart"
verb_walks _ = false

abbrev pub walks_graph : List String → Bool
walks_graph [] = false
walks_graph (command ∷ args) = str_eq command "compose" && verb_walks args

module _ {X : Type 0} (host : Host X) (programs : Programs X) (cwd : String) (P : World X → Type 0)
    (logged : (line : String) (w : World X) → P w → P (log line w))
    (spared : (args : List String) (ms : ℕ) (w : World X)
      → walks_graph args ≡ false
      → P w
      → P (programs.exec_file "docker" args ms w).1) where
  run_logged-keeps :
      (what : String) (args : List String) (ms : ℕ) (w : World X)
      → walks_graph args ≡ false
      → P w
      → P (run_logged host programs cwd what "docker" args ms w).1
  run_logged-keeps what args ms w safe held =
      caught (announced host programs cwd "docker" args ms w)
        (spared args ms _ safe (logged _ w held))
    where
      caught :
          (p : Result String × World X)
          → P p.1
          → P (or_else p (λ e v. (err e, log (failure_line host programs cwd what e) v))).1
      caught (ok a, v) held = held
      caught (err e, v) held = logged _ v held

  -- What a program prints is dropped.
  ended-keeps : (p : Result String × World X) → P p.1 → P (and_then p (λ printed v. done_at v)).1
  ended-keeps (ok a, v) held = held
  ended-keeps (err e, v) held = held

  start_found-keeps :
      (service file : String) (ms : ℕ) (ids : List String) (w : World X)
      → P w
      → P (start_found host programs cwd service file ms ids w).1
  start_found-keeps service file ms [] w held = run_logged-keeps _ _ ms w refl held
  start_found-keeps service file ms (id ∷ ids) w held = run_logged-keeps _ _ ms w refl held

  start_service-keeps :
      (service file : String) (ms : ℕ) (w : World X)
      → P w
      → P (start_service host programs cwd service file ms w).1
  unfolding start_service
  start_service-keeps service file ms w held =
      listed (list_containers host programs cwd service file ms w) (spared _ ms w refl held)
    where
      listed :
          (p : Result String × World X)
          → P p.1
          → P
              (and_then p (λ output v.
                and_then
                  (start_found host programs cwd service file ms (container_ids output) v)
                  (λ printed u. done_at u))).1
      listed (ok output, v) held =
          ended-keeps _ (start_found-keeps service file ms (container_ids output) v held)
      listed (err e, v) held = held

  -- No method of `compose` runs docker compose's own `start` or `restart`: what holds before a method,
  -- and is kept by logging and by every run of docker but those, holds after it, however it ends.
  pub compose-keeps :
      (action : ComposeAction) (service : String) (w : World X)
      → P w
      → P (compose host programs cwd action service w).1
  unfolding compose compose_action
  compose-keeps start service w held =
      start_service-keeps service default_compose_file 120000 w held
  compose-keeps stop service w held =
      ended-keeps (other_action host programs cwd stop service default_compose_file 120000 w)
        (run_logged-keeps _ _ _ w refl held)
  compose-keeps kill service w held =
      ended-keeps (other_action host programs cwd kill service default_compose_file 120000 w)
        (run_logged-keeps _ _ _ w refl held)
  compose-keeps restart service w held =
      restarted (compose_action host programs cwd stop service default_options w) (
        ended-keeps (other_action host programs cwd stop service default_compose_file 120000 w)
          (run_logged-keeps _ _ _ w refl held))
    where
      restarted :
          (p : Result (Unit {0}) × World X)
          → P p.1
          → P
              (and_then p
                (λ stopped. compose_action host programs cwd start service default_options)).1
      restarted (ok stopped, v) held =
          start_service-keeps service default_compose_file 120000 v held
      restarted (err e, v) held = held
