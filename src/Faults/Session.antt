-- ===== src/Faults/Session.antt =====
-- src/utils/fault-injector.ts: the methods of `FaultSession`.
use rayls_sovereign_tests_au.Shared.{
  ℕ, String, Option, none, some, List, [], Bool, true, false, ◌==◌, if◌then◌else◌, any, keep,
  length,
}
use rayls_sovereign_tests_au.Shared.Text.{◌<>◌, show}
use rayls_sovereign_tests_au.Js.{JsError, error, Result, ok, err, Exec, and_then, or_else}
use rayls_sovereign_tests_au.Logging.{Host}
use rayls_sovereign_tests_au.Timed.{until_deadline, timed_result}
use rayls_sovereign_tests_au.Faults.{
  Method, get, post, delete, FaultRule, TriggerEvent, SessionSnapshot, Http,
  control_plane_timeout_ms, status_text, body_or_message,
}
use rayls_sovereign_tests_au.Faults.Injector.{FaultSession, alive_answer, liveness_timeout_ms}
use text.Mathlib.Text.{◌==◌ as str_eq}

abbrev pub log_of : SessionSnapshot → List TriggerEvent
log_of s = elim (s.log) [ none ↦ [] | some events ↦ events ]

abbrev pub fired_at : String → TriggerEvent → Bool
fired_at point event = str_eq event.point point

abbrev pub is_not_found : Option ℕ → Bool
is_not_found none = false
is_not_found (some n) = n == 404

module _ {X : Type 0} (host : Host X) (http : Http X) (session : FaultSession) where
  unfoldable pub session_url : String
  session_url = session.base <> "/sessions/" <> host.encode_uri session.id

  -- A request whose reply is not read; what the request throws is replaced.
  abbrev command : Method → String → Option FaultRule → (JsError → JsError) → Exec X (Unit {0})
  command method url body failure x =
      or_else
        (and_then (http.send method url body control_plane_timeout_ms x) (λ reply y. (ok tt, y)))
        (λ e y. (err (failure e), y))

  abbrev failure_in : String → JsError → JsError
  failure_in what e =
      error ("FaultSession[" <> session.id <> "]." <> what <> " failed (" <> status_text e <> ")")

  abbrev failure_with_body : String → JsError → JsError
  failure_with_body what e = error (
      "FaultSession["
      <> session.id
      <> "]."
      <> what
      <> " failed ("
      <> status_text e
      <> "): "
      <> host.json_string (body_or_message e))

  unfoldable pub arm : FaultRule → Exec X (Unit {0})
  arm rule = command post (session_url <> "/faults") (some rule) (failure_with_body "arm")

  unfoldable pub clear_point : String → Exec X (Unit {0})
  clear_point point =
      command delete (session_url <> "/faults/" <> host.encode_uri point) none
        (failure_with_body ("clearPoint(" <> point <> ")"))

  unfoldable pub clear_all_rules : Exec X (Unit {0})
  clear_all_rules = command delete (session_url <> "/faults") none (failure_in "clearAllRules")

  -- A session that is already gone counts as cleared.
  unfoldable pub clear : Exec X (Unit {0})
  clear x =
      or_else
        (and_then (http.send delete session_url none control_plane_timeout_ms x)
          (λ reply y. (ok tt, y)))
        (λ e y.
          if is_not_found e.response_status then (ok tt, y) else (err (failure_in "clear" e), y))

  unfoldable pub clear_log : Exec X (Unit {0})
  clear_log = command delete (session_url <> "/log") none (failure_in "clearLog")

  unfoldable pub status : Exec X SessionSnapshot
  status x =
      or_else
        (and_then (http.send get session_url none control_plane_timeout_ms x)
          (λ reply y. (ok reply.snapshot, y)))
        (λ e y. (err (failure_in "status" e), y))

  unfoldable pub was_triggered : String → Exec X Bool
  was_triggered point x = and_then (status x) (λ s y. (ok (any (fired_at point) (log_of s)), y))

  unfoldable pub trigger_count : String → Exec X ℕ
  trigger_count point x =
      and_then (status x) (λ s y. (ok (length (keep (fired_at point) (log_of s))), y))

  -- What one round of `assertLiveAfter` finds: the relayer is up, and the point has fired.
  abbrev pub fired_answer : String → Result SessionSnapshot × X → Bool × X
  fired_answer point (ok s, x) = (any (fired_at point) (log_of s), x)
  fired_answer point (err e, x) = (false, x)

  abbrev pub if_alive : String → Bool × X → Bool × X
  if_alive point (true, x) = fired_answer point (status x)
  if_alive point (false, x) = (false, x)

  unfoldable pub live_and_fired : String → X → Bool × X
  live_and_fired point x =
      if_alive point
        (alive_answer (http.send get (session.base <> "/sessions") none liveness_timeout_ms x))

  unfoldable pub assert_live_after :
      String → (timeout_ms poll_ms : ℕ) → X → Option (Result (Unit {0})) × X
  assert_live_after point timeout_ms poll_ms x =
      timed_result
        (error (
          "FaultSession["
          <> session.id
          <> "].assertLiveAfter("
          <> point
          <> "): relayer never recovered with the expected trigger within "
          <> show timeout_ms
          <> "ms"))
        (until_deadline host (live_and_fired point) timeout_ms poll_ms x)
