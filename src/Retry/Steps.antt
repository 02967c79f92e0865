-- ===== src/Retry/Steps.antt =====
-- One round of the loop of `retry`, in each of the ways in which an attempt ends.
use rayls_sovereign_tests_au.Shared.{
  ℕ, zero, suc, ◌+◌, ◌≤◌, ◌<◌, true, false, ◌≡◌, ◌∙◌, arith, inl, inr, leb, Bool-cases,
}
use rayls_sovereign_tests_au.Js.{JsError, Result, ok, err, Exec}
use rayls_sovereign_tests_au.Retry.{
  RetryOptions, accepts, notify, retry_attempts, retry_delay, attempt_failed, retry_from,
}
use rayls_sovereign_tests_au.Retry.Runs.{Retried, start, again}

module _ {S A : Type 0} (wait : ℕ → S → S) (opts : RetryOptions S) (fn : Exec S A) where
  -- The four ways in which a failed attempt goes on.
  pub retry_from-again :
      (left i : ℕ) (last e : JsError) {s t u : S}
      → fn s ≡ (err e, t)
      → accepts opts.retry_if e ≡ true
      → i < retry_attempts opts
      → notify opts.on_retry e i t ≡ (ok tt, u)
      → retry_from wait opts fn (suc left) i last s
        ≡ retry_from wait opts fn left (suc i) e (wait (retry_delay opts) u)
  unfolding retry_from attempt_failed
  retry_from-again left i last e failed worth room told =
      rw failed (rw worth (rw (more i _ room) (rw told)))
    where
      more : (a b : ℕ) → a < b → leb b a ≡ false
      more a b h = ground arith

  pub retry_from-permanent :
      (left i : ℕ) (last e : JsError) {s t : S}
      → fn s ≡ (err e, t)
      → accepts opts.retry_if e ≡ false
      → retry_from wait opts fn (suc left) i last s ≡ (err e, t)
  unfolding retry_from attempt_failed
  retry_from-permanent left i last e failed worthless = rw failed (rw worthless)

  pub retry_from-last :
      (left i : ℕ) (last e : JsError) {s t : S}
      → fn s ≡ (err e, t)
      → retry_attempts opts ≤ i
      → retry_from wait opts fn (suc left) i last s ≡ (err e, t)
  unfolding retry_from attempt_failed
  retry_from-last left i last e failed full =
      rw failed (elim (Bool-cases (accepts opts.retry_if e)) [
        | inl worth ↦ rw worth (rw (none_left (retry_attempts opts) i full))
        | inr worthless ↦ rw worthless
      ])
    where
      none_left : (a b : ℕ) → a ≤ b → leb a b ≡ true
      none_left a b h = ground arith

  pub retry_from-threw :
      (left i : ℕ) (last e e' : JsError) {s t u : S}
      → fn s ≡ (err e, t)
      → accepts opts.retry_if e ≡ true
      → i < retry_attempts opts
      → notify opts.on_retry e i t ≡ (err e', u)
      → retry_from wait opts fn (suc left) i last s ≡ (err e', u)
  unfolding retry_from attempt_failed
  retry_from-threw left i last e e' failed worth room told =
      rw failed (rw worth (rw (more i _ room) (rw told)))
    where
      more : (a b : ℕ) → a < b → leb b a ≡ false
      more a b h = ground arith

  pub retry_from-ok :
      (left i : ℕ) (last : JsError) {s t : S} {a : A}
      → fn s ≡ (ok a, t)
      → retry_from wait opts fn (suc left) i last s ≡ (ok a, t)
  unfolding retry_from
  retry_from-ok left i last done = rw done

  -- A run of failed attempts that are retried brings the loop to the attempt after them, so the loop
  -- ends as it ends from there.
  pub retry_from-Retried :
      (left i : ℕ) (last : JsError) {k : ℕ} {s v : S} {r : Result A × S}
      → Retried wait opts fn i k s v
      → k < left
      → i + left ≡ suc (retry_attempts opts)
      → ((m j : ℕ) (l : JsError)
          → suc m + k ≡ left
          → j ≡ i + k
          → retry_from wait opts fn (suc m) j l v ≡ r)
      → retry_from wait opts fn left i last s ≡ r
  retry_from-Retried zero i last run h room final = absurd (omega arith)
  retry_from-Retried (suc left) i last start h room final =
      final left i last (omega arith) (omega arith)
  retry_from-Retried (suc left) i last (again {e = e} failed worth told run) h room final =
      retry_from-again left i last e failed worth (omega arith) told
      ∙ retry_from-Retried left (suc i) e run (omega arith) (omega arith)
          (λ m j l same at. final m j l (omega arith) (omega arith))
