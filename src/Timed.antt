-- ===== src/Timed.antt =====
-- The loops of the suite that run against a deadline: probe, return if the probe passes, else wait
-- and look at the clock again. They are written out in src/utils/fault-injector.ts (`waitUntilAlive`,
-- `waitForCrash`, `assertLiveAfter`) and src/utils/docker-compose.ts (`waitForCompose`).
-- The loop takes fuel; Timed/Laws has the theorem that fuel for one round per millisecond is enough.
pub mod Laws
use rayls_sovereign_tests_au.Shared.{ℕ, zero, suc, Option, none, some, Bool, true, false, ltb, ◌+◌}
use rayls_sovereign_tests_au.Js.{JsError, Result, ok, err}
use rayls_sovereign_tests_au.Logging.{Host}

-- How a deadline loop ends; `stuck` is the end of the fuel.
pub data Ended : Type 0 where
  passed : Ended
  timed_out : Ended
  stuck : Ended

module _ {X : Type 0} (host : Host X) (probe : X → Bool × X) (poll_ms deadline : ℕ) where
  unfoldable pub after_probe : (X → Ended × X) → Bool × X → Ended × X
  after_probe next (true, x) = (passed, x)
  after_probe next (false, x) = next (host.wait poll_ms x)

  -- One round: the clock is looked at first.
  unfoldable pub timed_round : (X → Ended × X) → X → Bool → Ended × X
  unfolding after_probe
  timed_round next x true = after_probe next (probe x)
  timed_round next x false = (timed_out, x)

  unfoldable pub before_deadline : ℕ → X → Ended × X
  before_deadline zero x = (stuck, x)
  before_deadline (suc fuel) x = timed_round (before_deadline fuel) x (ltb (host.now x) deadline)

-- `const deadline = Date.now() + timeoutMs` and the loop.
unfoldable pub until_deadline :
    {X : Type 0} → Host X → (X → Bool × X) → (timeout_ms poll_ms : ℕ) → X → Ended × X
until_deadline host probe timeout_ms poll_ms x =
    before_deadline host probe poll_ms (host.now x + timeout_ms) (suc timeout_ms) x

-- The loop's function returns if the loop passes, and throws at the deadline; there is no result if
-- the model's fuel ends.
abbrev pub timed_result : {X : Type 0} → JsError → Ended × X → Option (Result (Unit {0})) × X
timed_result e (passed, x) = (some (ok tt), x)
timed_result e (timed_out, x) = (some (err e), x)
timed_result e (stuck, x) = (none, x)
