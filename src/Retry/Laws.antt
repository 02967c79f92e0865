-- ===== src/Retry/Laws.antt =====
-- The loop of `retry` and the relation on runs agree, in both directions.
use rayls_sovereign_tests_au.Shared.{
  ℕ, zero, suc, ◌+◌, ◌<◌, true, ◌≡◌, refl, arith, ◌⊎◌, inl, inr, Bool-cases, ◌↔◌, subst,
}
use rayls_sovereign_tests_au.Js.{JsError, undefined_error, Result, ok, err, Exec}
use rayls_sovereign_tests_au.Retry.{
  RetryOptions, accepts, notify, retry_attempts, retry_delay, retry_from, retry,
}
use rayls_sovereign_tests_au.Retry.Runs.{
  start, again, Outcome, succeeded, permanent, exhausted, callback_threw,
}
use rayls_sovereign_tests_au.Retry.Steps.{
  retry_from-again, retry_from-permanent, retry_from-last, retry_from-threw, retry_from-ok,
  retry_from-Retried,
}

module _ {S A : Type 0} (wait : ℕ → S → S) (opts : RetryOptions S) (fn : Exec S A) where
  -- One more retried attempt in front of a run.
  Outcome-again :
      {n i : ℕ} {s t u : S} {e : JsError} {r : Result A × S}
      → fn s ≡ (err e, t)
      → accepts opts.retry_if e ≡ true
      → notify opts.on_retry e i t ≡ (ok tt, u)
      → Outcome wait opts fn n (suc i) (wait (retry_delay opts) u) r
      → Outcome wait opts fn (suc n) i s r
  Outcome-again failed worth told (succeeded r h f) =
      succeeded (again failed worth told r) (omega arith) f
  Outcome-again failed worth told (permanent r h f w) =
      permanent (again failed worth told r) (omega arith) f w
  Outcome-again failed worth told (exhausted r h f w) =
      exhausted (again failed worth told r) (omega arith) f w
  Outcome-again failed worth told (callback_threw r h j f w c) =
      callback_threw (again failed worth told r) (omega arith) (omega arith) f w c

  Outcome_of_notified :
      (left i : ℕ) (last e : JsError) {s t : S}
      → fn s ≡ (err e, t)
      → accepts opts.retry_if e ≡ true
      → i + suc left ≡ retry_attempts opts
      → ((u : S)
          → notify opts.on_retry e i t ≡ (ok tt, u)
          → Outcome wait opts fn
              (suc left)
              (suc i)
              (wait (retry_delay opts) u)
              (retry_from wait opts fn (suc left) (suc i) e (wait (retry_delay opts) u)))
      → (told : Result (Unit {0}) × S) → notify opts.on_retry e i t ≡ told
      → Outcome wait opts fn
          (suc (suc left))
          i
          s
          (retry_from wait opts fn (suc (suc left)) i last s)
  Outcome_of_notified left i last e failed worth room ih (ok tt, u) told =
      rw (retry_from-again wait opts fn (suc left) i last e failed worth (omega arith) told)
        (Outcome-again failed worth told (ih u told))
  Outcome_of_notified left i last e failed worth room ih (err e', u) told =
      rw (retry_from-threw wait opts fn (suc left) i last e e' failed worth (omega arith) told)
        (callback_threw start (omega arith) (omega arith) failed worth told)

  Outcome_of_failed :
      (left i : ℕ) (last e : JsError) {s t : S}
      → fn s ≡ (err e, t)
      → i + left ≡ retry_attempts opts
      → ((e' : JsError) (u : S)
          → Outcome wait opts fn left (suc i) u (retry_from wait opts fn left (suc i) e' u)
            ⊎ (left ≡ zero))
      → Outcome wait opts fn (suc left) i s (retry_from wait opts fn (suc left) i last s)
  Outcome_of_failed zero i last e failed room ih = elim (Bool-cases (accepts opts.retry_if e)) [
    | inl worth ↦
        rw (retry_from-last wait opts fn zero i last e failed (omega arith))
          (exhausted start refl failed worth)
    | inr worthless ↦
        rw (retry_from-permanent wait opts fn zero i last e failed worthless)
          (permanent start (omega arith) failed worthless)
  ]
  Outcome_of_failed (suc left) i last e {t = t} failed room ih =
      elim (Bool-cases (accepts opts.retry_if e)) [
        | inl worth ↦
            Outcome_of_notified left i last e failed worth room
              (λ u told. elim (ih e (wait (retry_delay opts) u)) [
                | inl rest ↦ rest
                | inr gone ↦ absurd (omega arith)
              ])
              (notify opts.on_retry e i t) refl
        | inr worthless ↦
            rw (retry_from-permanent wait opts fn (suc left) i last e failed worthless)
              (permanent start (omega arith) failed worthless)
      ]

  Outcome_of_attempt :
      (left i : ℕ) (last : JsError) {s : S}
      → i + left ≡ retry_attempts opts
      → ((e' : JsError) (u : S)
          → Outcome wait opts fn left (suc i) u (retry_from wait opts fn left (suc i) e' u)
            ⊎ (left ≡ zero))
      → (r : Result A × S) → fn s ≡ r
      → Outcome wait opts fn (suc left) i s (retry_from wait opts fn (suc left) i last s)
  Outcome_of_attempt left i last room ih (ok a, t) done =
      rw (retry_from-ok wait opts fn left i last done) (succeeded start (omega arith) done)
  Outcome_of_attempt left i last room ih (err e, t) failed =
      Outcome_of_failed left i last e failed room ih

  retry_from-Outcome :
      (left i : ℕ) (last : JsError) (s : S)
      → i + left ≡ retry_attempts opts
      → Outcome wait opts fn (suc left) i s (retry_from wait opts fn (suc left) i last s)
  retry_from-Outcome zero i last s room =
      Outcome_of_attempt zero i last room (λ e u. inr refl) (fn s) refl
  retry_from-Outcome (suc left) i last s room =
      Outcome_of_attempt (suc left) i last room
        (λ e u. inl (retry_from-Outcome left (suc i) e u (omega arith))) (fn s) refl

  Outcome-retry_from :
      (left i : ℕ) (last : JsError) (s : S) (r : Result A × S)
      → i + left ≡ suc (retry_attempts opts)
      → Outcome wait opts fn left i s r
      → retry_from wait opts fn left i last s ≡ r
  Outcome-retry_from left i last s _ room (succeeded run h f) =
      retry_from-Retried wait opts fn left i last run h room
        (λ m j l _ _. retry_from-ok wait opts fn m j l f)
  Outcome-retry_from left i last s _ room (permanent {e = e} run h f w) =
      retry_from-Retried wait opts fn left i last run h room
        (λ m j l _ _. retry_from-permanent wait opts fn m j l e f w)
  Outcome-retry_from left i last s _ room (exhausted {e = e} run h f w) =
      retry_from-Retried wait opts fn left i last run (omega arith) room
        (λ m j l same at. retry_from-last wait opts fn m j l e f (omega arith))
  Outcome-retry_from left i last s _ room
        (callback_threw {j = n} {t = t} {u = u} {e = e} {e' = e'} run h at f w c) =
      retry_from-Retried wait opts fn left i last run (omega arith) room (λ m j l same here.
        retry_from-threw wait opts fn m j l e e' f w (omega arith)
          (subst (λ x. notify opts.on_retry e x t ≡ (err e', u)) (omega arith) c))

  retry_from-Outcome_pos :
      (n : ℕ) (last : JsError) (s : S)
      → 0 < n
      → n ≡ retry_attempts opts
      → Outcome wait opts fn n 1 s (retry_from wait opts fn n 1 last s)
  retry_from-Outcome_pos zero last s pos all = elim pos [ ]
  retry_from-Outcome_pos (suc left) last s pos all = retry_from-Outcome left 1 last s (omega arith)

  -- With at least one attempt configured, `retry` ends as `r` from `s` exactly if `r` is what the
  -- relation on runs gives with all the attempts left: it returns the first success after fewer
  -- retried failures than attempts, and it throws only an error that is not worth a retry, the error
  -- of the last attempt, or the error of the callback.
  pub retry_iff_Outcome :
      (s : S) (r : Result A × S)
      → 0 < retry_attempts opts
      → (retry wait opts fn s ≡ r) ↔ Outcome wait opts fn (retry_attempts opts) 1 s r
  unfolding retry
  retry_iff_Outcome s r some_attempts = (
    (λ e.
        rw (← e)
          (retry_from-Outcome_pos (retry_attempts opts) undefined_error s some_attempts refl)),
    (λ run. Outcome-retry_from (retry_attempts opts) 1 undefined_error s r (omega arith) run),
  )
