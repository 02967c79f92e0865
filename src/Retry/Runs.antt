-- ===== src/Retry/Runs.antt =====
-- What `retry` promises, as a relation on runs: some failed attempts, each of an error worth a retry,
-- each followed by the callback and the delay, and then one last attempt.
use rayls_sovereign_tests_au.Shared.{ℕ, zero, suc, ◌+◌, ◌<◌, true, false, ◌≡◌}
use rayls_sovereign_tests_au.Js.{JsError, Result, ok, err, Exec}
use rayls_sovereign_tests_au.Retry.{RetryOptions, accepts, notify, retry_delay}

module _ {S A : Type 0} (wait : ℕ → S → S) (opts : RetryOptions S) (fn : Exec S A) where
  -- `Retried i k s v`: from `s`, before attempt `i`, exactly `k` attempts fail and are retried, which
  -- leads to `v`, before attempt `i + k`.
  pub data Retried : ℕ → ℕ → S → S → Type 0 where
    start : {i : ℕ} {s : S} → Retried i zero s s
    again :
        {i k : ℕ} {s t u v : S} {e : JsError}
        → fn s ≡ (err e, t)
        → accepts opts.retry_if e ≡ true
        → notify opts.on_retry e i t ≡ (ok tt, u)
        → Retried (suc i) k (wait (retry_delay opts) u) v
        → Retried i (suc k) s v

  -- `Outcome n i s r`: with `n` attempts left before attempt `i`, the run from `s` ends as `r`: by the
  -- first success, by an error that is not worth a retry, by the error of the last attempt, or by the
  -- error of the callback.
  pub data Outcome : ℕ → ℕ → S → Result A × S → Type 0 where
    succeeded :
        {n i k : ℕ} {s v t : S} {a : A}
        → Retried i k s v
        → k < n
        → fn v ≡ (ok a, t)
        → Outcome n i s (ok a, t)
    permanent :
        {n i k : ℕ} {s v t : S} {e : JsError}
        → Retried i k s v
        → k < n
        → fn v ≡ (err e, t)
        → accepts opts.retry_if e ≡ false
        → Outcome n i s (err e, t)
    exhausted :
        {n i k : ℕ} {s v t : S} {e : JsError}
        → Retried i k s v
        → n ≡ suc k
        → fn v ≡ (err e, t)
        → accepts opts.retry_if e ≡ true
        → Outcome n i s (err e, t)
    callback_threw :
        {n i k j : ℕ} {s v t u : S} {e e' : JsError}
        → Retried i k s v
        → suc k < n
        → j ≡ i + k
        → fn v ≡ (err e, t)
        → accepts opts.retry_if e ≡ true
        → notify opts.on_retry e j t ≡ (err e', u)
        → Outcome n i s (err e', u)
