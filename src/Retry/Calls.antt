-- ===== src/Retry/Calls.antt =====
-- How often `retry` runs its operation. `calls` counts the runs of the operation in the state.
use rayls_sovereign_tests_au.Shared.{
  ℕ, suc, ◌+◌, ◌≤◌, ◌<◌, true, ◌≡◌, ◌∙◌, refl, arith, ap, sym, subst,
}
use rayls_sovereign_tests_au.Js.{JsError, Result, ok, err, Exec}
use rayls_sovereign_tests_au.Retry.{
  RetryOptions, accepts, notify, retry_attempts, retry_delay, retry,
}
use rayls_sovereign_tests_au.Retry.Runs.{
  Retried, start, again, Outcome, succeeded, permanent, exhausted, callback_threw,
}
use rayls_sovereign_tests_au.Retry.Laws.{retry_iff_Outcome}

module _ {S A : Type 0} (wait : ℕ → S → S) (opts : RetryOptions S) (fn : Exec S A) (calls : S → ℕ)
    (counts : (s : S) → calls (fn s).1 ≡ suc (calls s))
    (wait_keeps : (ms : ℕ) (s : S) → calls (wait ms s) ≡ calls s)
    (notify_keeps : (e : JsError) (i : ℕ) (s : S)
      → calls (notify opts.on_retry e i s).1 ≡ calls s) where
  calls_of_fn : {s t : S} {r : Result A} → fn s ≡ (r, t) → calls t ≡ suc (calls s)
  calls_of_fn {s} e = ap (λ (p : Result A × S). calls p.1) (sym e) ∙ counts s

  calls_of_notify :
      {s t : S} {r : Result (Unit {0})} (e : JsError) (i : ℕ)
      → notify opts.on_retry e i s ≡ (r, t)
      → calls t ≡ calls s
  calls_of_notify {s} e i told =
      ap (λ (p : Result (Unit {0}) × S). calls p.1) (sym told) ∙ notify_keeps e i s

  calls_of_Retried : {i k : ℕ} {s v : S} → Retried wait opts fn i k s v → calls v ≡ calls s + k
  calls_of_Retried start = omega arith
  calls_of_Retried (again {i = i} {u = u} {e = e} failed worth told run) = omega (
    arith,
    calls_of_Retried run,
    wait_keeps (retry_delay opts) u,
    calls_of_notify e i told,
    calls_of_fn failed,
  )

  calls_of_Outcome :
      {n i : ℕ} {s : S} {r : Result A × S}
      → Outcome wait opts fn n i s r
      → (calls s < calls r.1) × (calls r.1 ≤ calls s + n)
  calls_of_Outcome (succeeded run h f) = omega (arith, calls_of_Retried run, calls_of_fn f)
  calls_of_Outcome (permanent run h f w) = omega (arith, calls_of_Retried run, calls_of_fn f)
  calls_of_Outcome (exhausted run h f w) = omega (arith, calls_of_Retried run, calls_of_fn f)
  calls_of_Outcome (callback_threw {j = j} {e = e} run h at f w c) =
      omega (arith, calls_of_Retried run, calls_of_fn f, calls_of_notify e j c)

  -- If the operation counts its runs, waits and the callback leave that count alone, and at least
  -- one attempt is configured, then the operation runs at least once and at most as often as there
  -- are attempts.
  pub retry_calls :
      (s : S)
      → 0 < retry_attempts opts
      → (calls s < calls (retry wait opts fn s).1)
        × (calls (retry wait opts fn s).1 ≤ calls s + retry_attempts opts)
  retry_calls s pos =
      calls_of_Outcome ((retry_iff_Outcome wait opts fn s (retry wait opts fn s) pos).0 refl)

  calls_of_given_up :
      {n i : ℕ} {s : S} {r : Result A × S} {e : JsError}
      → ((e : JsError) (i : ℕ) (s : S) → (notify opts.on_retry e i s).0 ≡ ok tt)
      → Outcome wait opts fn n i s r
      → r.0 ≡ err e
      → accepts opts.retry_if e ≡ true
      → calls r.1 ≡ calls s + n
  calls_of_given_up quiet (succeeded run h f) same worth = absurd (cc)
  calls_of_given_up quiet (permanent {e = e} run h f w) same worth = absurd (ground arith)
  calls_of_given_up quiet (exhausted run h f w) same worth =
      omega (arith, calls_of_Retried run, calls_of_fn f)
  calls_of_given_up quiet (callback_threw {j = j} {t = t} {e = e} run h at f w c) same worth =
      absurd (cc (quiet e j t))

  -- If the operation counts its runs, waits and the callback leave that count alone, the callback
  -- never throws, at least one attempt is configured, and `retry` throws an error that is worth a
  -- retry, then it has made all its attempts: it never gives up early on such an error.
  pub retry-exhausts_attempts :
      (s : S) (e : JsError)
      → 0 < retry_attempts opts
      → ((e : JsError) (i : ℕ) (s : S) → (notify opts.on_retry e i s).0 ≡ ok tt)
      → (retry wait opts fn s).0 ≡ err e
      → accepts opts.retry_if e ≡ true
      → calls (retry wait opts fn s).1 ≡ calls s + retry_attempts opts
  retry-exhausts_attempts s e pos quiet thrown worth =
      calls_of_given_up quiet ((retry_iff_Outcome wait opts fn s (retry wait opts fn s) pos).0 refl)
        thrown worth

-- What the operation, the delay and the callback all keep, `retry` keeps.
module _ {S A : Type 0} (wait : ℕ → S → S) (opts : RetryOptions S) (fn : Exec S A) (P : S → Type 0)
    (fn_keeps : (s : S) → P s → P (fn s).1) (wait_keeps : (ms : ℕ) (s : S) → P s → P (wait ms s))
    (notify_keeps : (e : JsError) (i : ℕ) (s : S) → P s → P (notify opts.on_retry e i s).1) where
  kept_by_fn : {s t : S} {r : Result A} → fn s ≡ (r, t) → P s → P t
  kept_by_fn {s} e h = subst (λ (p : Result A × S). P p.1) e (fn_keeps s h)

  kept_by_notify :
      {s t : S} {r : Result (Unit {0})} (e : JsError) (i : ℕ)
      → notify opts.on_retry e i s ≡ (r, t)
      → P s
      → P t
  kept_by_notify {s} e i told h =
      subst (λ (p : Result (Unit {0}) × S). P p.1) told (notify_keeps e i s h)

  kept_by_Retried : {i k : ℕ} {s v : S} → Retried wait opts fn i k s v → P s → P v
  kept_by_Retried start h = h
  kept_by_Retried (again {i = i} {u = u} {e = e} failed worth told run) h =
      kept_by_Retried run
        (wait_keeps (retry_delay opts) u (kept_by_notify e i told (kept_by_fn failed h)))

  kept_by_Outcome :
      {n i : ℕ} {s : S} {r : Result A × S} → Outcome wait opts fn n i s r → P s → P r.1
  kept_by_Outcome (succeeded run h f) p = kept_by_fn f (kept_by_Retried run p)
  kept_by_Outcome (permanent run h f w) p = kept_by_fn f (kept_by_Retried run p)
  kept_by_Outcome (exhausted run h f w) p = kept_by_fn f (kept_by_Retried run p)
  kept_by_Outcome (callback_threw {j = j} {e = e} run h at f w c) p =
      kept_by_notify e j c (kept_by_fn f (kept_by_Retried run p))

  pub retry_keeps : (s : S) → 0 < retry_attempts opts → P s → P (retry wait opts fn s).1
  retry_keeps s pos h =
      kept_by_Outcome ((retry_iff_Outcome wait opts fn s (retry wait opts fn s) pos).0 refl) h
