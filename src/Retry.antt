-- ===== src/Retry.antt =====
-- src/utils/common.ts: `retry`, the generic retry helper with a fixed delay between attempts.
-- The operation is any code over a state; `wait` is the `delay` of the source.
pub mod Runs
pub mod Steps
pub mod Laws
pub mod Calls
use rayls_sovereign_tests_au.Shared.{
  ℕ, zero, suc, Option, none, some, Bool, true, false, leb, if◌then◌else◌,
}
use rayls_sovereign_tests_au.Js.{
  JsError, undefined_error, Result, ok, err, Exec, ◌>>=◌, and_then, or_else,
}

-- The optional settings; a missing one takes its default.
pub record RetryOptions (S : Type 0) : Type 0 where
  pub attempts : Option ℕ
  pub delay_ms : Option ℕ
  pub on_retry : Option (JsError → ℕ → Exec S (Unit {0}))
  pub retry_if : Option (JsError → Bool)

abbrev pub or_default : Option ℕ → ℕ → ℕ
or_default none d = d
or_default (some n) d = n

-- `opts?.retryIf && !opts.retryIf(err)` is false: no test means that every error is retried.
abbrev pub accepts : Option (JsError → Bool) → JsError → Bool
accepts none e = true
accepts (some test) e = test e

module _ {S : Type 0} where
  abbrev pub retry_attempts : RetryOptions S → ℕ
  retry_attempts opts = or_default opts.attempts 3

  abbrev pub retry_delay : RetryOptions S → ℕ
  retry_delay opts = or_default opts.delay_ms 3000

  abbrev pub notify : Option (JsError → ℕ → Exec S (Unit {0})) → JsError → ℕ → Exec S (Unit {0})
  notify none e i s = (ok tt, s)
  notify (some callback) e i s = callback e i s

module _ {S A : Type 0} (wait : ℕ → S → S) (opts : RetryOptions S) (fn : Exec S A) where
  -- The body of the `catch`; `next` is the rest of the loop.
  unfoldable pub attempt_failed : ℕ → JsError → Exec S A → Exec S A
  attempt_failed i e next s =
      if accepts opts.retry_if e
      then (if leb (retry_attempts opts) i
          then (err e, s)
          else and_then (notify opts.on_retry e i s) (λ _ t. next (wait (retry_delay opts) t)))
      else (err e, s)

  -- The loop at attempt `i`, with `left` attempts left and the last error so far.
  unfoldable pub retry_from : ℕ → ℕ → JsError → Exec S A
  retry_from zero i last s = (err last, s)
  retry_from (suc left) i last s =
      or_else (fn s) (λ e. attempt_failed i e (retry_from left (suc i) e))

  unfoldable pub retry : Exec S A
  retry = retry_from (retry_attempts opts) 1 undefined_error
