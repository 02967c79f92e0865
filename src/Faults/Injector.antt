-- ===== src/Faults/Injector.antt =====
-- src/utils/fault-injector.ts: the methods of `FaultInjector`, over the base URL of the injector.
use rayls_sovereign_tests_au.Shared.{
  ℕ, String, Option, none, some, Bool, false, not, ◌==◌, if◌then◌else◌,
}
use rayls_sovereign_tests_au.Shared.Text.{◌<>◌, show, strip_slash}
use rayls_sovereign_tests_au.Js.{error, Result, ok, err, Exec, and_then, or_else}
use rayls_sovereign_tests_au.Logging.{Host, show_seconds}
use rayls_sovereign_tests_au.Timed.{until_deadline, timed_result}
use rayls_sovereign_tests_au.Faults.{
  get, post, Reply, SessionsListing, Http, control_plane_timeout_ms, status_text, body_or_message,
}
use text.Mathlib.Text.{◌==◌ as str_eq}

-- A session: the URL that its requests are built from, and its id.
pub record FaultSession : Type 0 where
  pub base : String
  pub id : String

-- The time that a liveness probe waits for an answer.
abbrev pub liveness_timeout_ms : ℕ
liveness_timeout_ms = 2000

abbrev pub alive_answer : {X : Type 0} → Result Reply × X → Bool × X
alive_answer (ok reply, x) = (reply.status == 200, x)
alive_answer (err e, x) = (false, x)

abbrev pub inverted : {X : Type 0} → Bool × X → Bool × X
inverted (b, x) = (not b, x)

module _ {X : Type 0} (host : Host X) (http : Http X) (base_url : String) where
  abbrev session_of : Option String → Reply → Exec X FaultSession
  session_of none reply x = (err (error ("unexpected response shape: " <> reply.body_text)), x)
  session_of (some id) reply x =
      if str_eq id ""
      then (err (error ("unexpected response shape: " <> reply.body_text)), x)
      else (ok (record { base = strip_slash base_url; id = id }), x)

  unfoldable pub new_session : Exec X FaultSession
  new_session x =
      or_else
        (and_then (http.send post (base_url <> "/sessions") none control_plane_timeout_ms x)
          (λ reply. session_of reply.session_id reply))
        (λ e y. (
          err (
              error (
                "FaultInjector.newSession failed ("
                <> status_text e
                <> "): "
                <> body_or_message e)),
          y,
        ))

  unfoldable pub list_sessions : Exec X SessionsListing
  list_sessions x =
      or_else
        (and_then (http.send get (base_url <> "/sessions") none control_plane_timeout_ms x)
          (λ reply y. (ok reply.listing, y)))
        (λ e y. (err (error ("FaultInjector.listSessions failed (" <> status_text e <> ")")), y))

  -- Does not throw.
  unfoldable pub is_alive : X → Bool × X
  is_alive x = alive_answer (http.send get (base_url <> "/sessions") none liveness_timeout_ms x)

  unfoldable pub wait_until_alive : (timeout_ms poll_ms : ℕ) → X → Option (Result (Unit {0})) × X
  wait_until_alive timeout_ms poll_ms x =
      timed_result
        (error (
          "FaultInjector: relayer at "
          <> base_url
          <> " not reachable after "
          <> show timeout_ms
          <> "ms"))
        (until_deadline host is_alive timeout_ms poll_ms x)

  unfoldable pub is_down : X → Bool × X
  is_down x = inverted (is_alive x)

  unfoldable pub wait_for_crash : (timeout_ms poll_ms : ℕ) → X → Option (Result (Unit {0})) × X
  wait_for_crash timeout_ms poll_ms x =
      timed_result
        (error (
          "FaultInjector: relayer at "
          <> base_url
          <> " did not crash within "
          <> show_seconds timeout_ms
          <> "s — the fault point may not have been reached"))
        (until_deadline host is_down timeout_ms poll_ms x)
