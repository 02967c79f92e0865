-- ===== src/Faults/Liveness.antt =====
-- How the waits on the relayer's liveness end.
use rayls_sovereign_tests_au.Shared.{
  ℕ, ◌+◌, ◌≤◌, ◌<◌, String, Option, none, some, Bool, true, false, ◌≡◌, refl, ap, any, ◌∙◌,
}
use rayls_sovereign_tests_au.Js.{JsError, Result, ok, err}
use rayls_sovereign_tests_au.Logging.{Host}
use rayls_sovereign_tests_au.Timed.{Ended, passed, timed_out, stuck, until_deadline, timed_result}
use rayls_sovereign_tests_au.Timed.Laws.{RunsForward, Probed, Meaning, until_deadline_ends}
use rayls_sovereign_tests_au.Faults.{Http, SessionSnapshot}
use rayls_sovereign_tests_au.Faults.Injector.{
  FaultSession, is_alive, is_down, wait_until_alive, wait_for_crash,
}
use rayls_sovereign_tests_au.Faults.Session.{
  log_of, fired_at, status, fired_answer, if_alive, live_and_fired, assert_live_after,
}

module _ {X : Type 0} (host : Host X) (probe : X → Bool × X) (poll_ms : ℕ) where
  -- A wait returns behind a probe that passed and was begun before the deadline `d`, or throws an
  -- error at the deadline.
  abbrev pub Returns : ℕ → X → Option (Result (Unit {0})) × X → Type 0
  Returns d x (some (ok u), y) =
      (k : ℕ) × (z : X) × Probed host probe poll_ms d k x z
      × (host.now z < d)
      × (probe z ≡ (true, y))
  Returns d x (some (err e), y) = (k : ℕ) × Probed host probe poll_ms d k x y × (d ≤ host.now y)
  Returns d x (none, y) = ⊥

  pub timed_result-Returns :
      (d : ℕ) (x : X) (e : JsError) (r : Ended × X)
      → Meaning host probe poll_ms d x r
      → Returns d x (timed_result e r)
  timed_result-Returns d x e (passed, y) m = m
  timed_result-Returns d x e (timed_out, y) m = m
  timed_result-Returns d x e (stuck, y) m = m

module _ {X : Type 0} (host : Host X) (http : Http X) (poll_ms : ℕ) (pos : 0 < poll_ms) where
  -- If the clock runs forward and the pause is not zero, `wait_until_alive` always ends: it returns
  -- behind a probe that found the server up and was begun before the deadline, after probes that all
  -- found it down, or it throws once the deadline is reached.
  pub wait_until_alive_ends :
      (base_url : String) (timeout_ms : ℕ) (x : X)
      → RunsForward host (is_alive host http base_url)
      → Returns host
          (is_alive host http base_url)
          poll_ms
          (host.now x + timeout_ms)
          x
          (wait_until_alive host http base_url timeout_ms poll_ms x)
  unfolding wait_until_alive
  wait_until_alive_ends base_url timeout_ms x forward =
      timed_result-Returns host (is_alive host http base_url) poll_ms (host.now x + timeout_ms) x _
        (until_deadline host (is_alive host http base_url) timeout_ms poll_ms x)
        (until_deadline_ends host (is_alive host http base_url) poll_ms forward pos timeout_ms x)

  -- If the clock runs forward and the pause is not zero, `wait_for_crash` always ends: it returns
  -- behind a probe that found the server down and was begun before the deadline, after probes that
  -- all found it up, or it throws once the deadline is reached.
  pub wait_for_crash_ends :
      (base_url : String) (timeout_ms : ℕ) (x : X)
      → RunsForward host (is_down host http base_url)
      → Returns host
          (is_down host http base_url)
          poll_ms
          (host.now x + timeout_ms)
          x
          (wait_for_crash host http base_url timeout_ms poll_ms x)
  unfolding wait_for_crash
  wait_for_crash_ends base_url timeout_ms x forward =
      timed_result-Returns host (is_down host http base_url) poll_ms (host.now x + timeout_ms) x _
        (until_deadline host (is_down host http base_url) timeout_ms poll_ms x)
        (until_deadline_ends host (is_down host http base_url) poll_ms forward pos timeout_ms x)

  -- What a passing round of `assert_live_after` saw: the server answered 200, and a snapshot of the
  -- session that was read right behind it holds a trigger of the point.
  abbrev pub SawTrigger : FaultSession → String → X → X → Type 0
  SawTrigger session point z y =
      (u : X) × (s : SessionSnapshot) × (is_alive host http session.base z ≡ (true, u))
      × (status host http session u ≡ (ok s, y))
      × (any (fired_at point) (log_of s) ≡ true)

  live_and_fired-SawTrigger :
      (session : FaultSession) (point : String) (z y : X)
      → live_and_fired host http session point z ≡ (true, y)
      → SawTrigger session point z y
  unfolding live_and_fired is_alive
  live_and_fired-SawTrigger session point z y h = alive (is_alive host http session.base z) refl h
    where
      fired :
          (u : X) (q : Result SessionSnapshot × X)
          → is_alive host http session.base z ≡ (true, u)
          → status host http session u ≡ q
          → fired_answer host http session point q ≡ (true, y)
          → SawTrigger session point z y
      fired u (ok s, v) up e seen =
          (u, s, up, e ∙ ap (λ t. (ok s, t)) (ap (λ p. p.1) seen), ap (λ p. p.0) seen)
      fired u (err x, v) up e seen = absurd (cc)

      alive :
          (p : Bool × X)
          → is_alive host http session.base z ≡ p
          → if_alive host http session point p ≡ (true, y)
          → SawTrigger session point z y
      alive (true, u) up seen = fired u (status host http session u) up refl seen
      alive (false, u) up seen = absurd (cc)

  -- If the clock runs forward and the pause is not zero, `assert_live_after` always ends, and where it
  -- returns, the last round found the server up and the point in the session's log.
  pub assert_live_after_ends :
      (session : FaultSession) (point : String) (timeout_ms : ℕ) (x : X)
      → RunsForward host (live_and_fired host http session point)
      → (Returns host
          (live_and_fired host http session point)
          poll_ms
          (host.now x + timeout_ms)
          x
          (assert_live_after host http session point timeout_ms poll_ms x))
        × ((y : X)
            → assert_live_after host http session point timeout_ms poll_ms x ≡ (some (ok tt), y)
            → (z : X) × (host.now z < host.now x + timeout_ms) × SawTrigger session point z y)
  unfolding assert_live_after
  assert_live_after_ends session point timeout_ms x forward = (ends, λ y e. seen y (_) e ends)
    where
      ends :
          Returns host
            (live_and_fired host http session point)
            poll_ms
            (host.now x + timeout_ms)
            x
            (assert_live_after host http session point timeout_ms poll_ms x)
      ends =
          timed_result-Returns host (live_and_fired host http session point) poll_ms
            (host.now x + timeout_ms) x _
            (until_deadline host (live_and_fired host http session point) timeout_ms poll_ms x)
            (until_deadline_ends host (live_and_fired host http session point) poll_ms forward pos
              timeout_ms x)

      seen :
          (y : X) (r : Option (Result (Unit {0})) × X)
          → r ≡ (some (ok tt), y)
          → Returns host
              (live_and_fired host http session point)
              poll_ms
              (host.now x + timeout_ms)
              x
              r
          → (z : X) × (host.now z < host.now x + timeout_ms) × SawTrigger session point z y
      seen y (some (ok u), v) e (k, z, run, early, saw) =
          (z, early, live_and_fired-SawTrigger session point z y (saw ∙ ap (λ p. (true, p.1)) e))
      seen y (some (err f), v) e m = absurd (cc)
      seen y (none, v) e m = absurd m
