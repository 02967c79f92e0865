-- ===== src/Transactions/Laws.antt =====
-- How often a transaction is sent, and what a receipt that is returned guarantees.
use rayls_sovereign_tests_au.Shared.{
  ℕ, zero, suc, ◌+◌, ◌*◌, ◌≤◌, ◌<◌, String, Option, none, some, ◌≡◌, refl, arith, ap, ltb, ◌∙◌,
  ◌&&◌, Bool-cases, inl, inr,
}
use rayls_sovereign_tests_au.Js.{JsError, Result, ok, err, Exec, and_then, or_else}
use rayls_sovereign_tests_au.Logging.{Host, World, log, load, load_success, delay}
use rayls_sovereign_tests_au.Logging.Laws.{outside-finish_load}
use rayls_sovereign_tests_au.Retry.Calls.{retry_calls}
use rayls_sovereign_tests_au.Retry.Laws.{retry_iff_Outcome}
use rayls_sovereign_tests_au.Retry.Runs.{Outcome, succeeded, permanent, exhausted, callback_threw}
use rayls_sovereign_tests_au.Transactions.{
  Receipt, Response, wait_for_receipt, receipt_timeout_ms, submit_options, resend, is_displaced,
  receipt_failed, submit_from, check_receipt, submit_tx, max_displaced_retries,
}

module _ {X : Type 0} (host : Host X) (message : String) where
  check_receipt-status :
      (id : ℕ) (o : Option Receipt) (w u : World X) (r : Receipt)
      → check_receipt host message id o w ≡ (ok r, u)
      → (o ≡ some r) × (r.status ≡ some 1)
  unfolding check_receipt
  check_receipt-status id none w u r h = absurd (cc)
  check_receipt-status id (some x) w u r h = ground arith

  receipt_checked :
      (id : ℕ) (p : Result (Option Receipt) × World X)
      → (and_then p (check_receipt host message id)).1.outside ≡ p.1.outside
  unfolding check_receipt load_success
  receipt_checked id (ok none, v) = refl
  receipt_checked id (ok (some r), v) = ground (arith, outside-finish_load host id "SUCCESS" v)
  receipt_checked id (err e, v) = refl

  module _ (tx_factory : Exec (World X) (Response X)) where
    -- A receipt that `submit_tx` returns has the status 1, that of a transaction that succeeded on
    -- the chain.
    pub submit_tx-status :
        (w u : World X) (r : Receipt)
        → submit_tx host tx_factory message w ≡ (ok r, u)
        → r.status ≡ some 1
    unfolding submit_tx
    submit_tx-status w u r h =
        let (id, w₁) = load host message w in
        receipt_of (submit_from host message tx_factory 5 1 w₁) id h
      where
        receipt_of :
            (p : Result (Option Receipt) × World X) (id : ℕ)
            → and_then p (check_receipt host message id) ≡ (ok r, u)
            → r.status ≡ some 1
        receipt_of (ok o, v) id e = (check_receipt-status id o v u r e).1
        receipt_of (err x, v) id e = absurd (cc)

    -- The response of a send was given by the factory.
    abbrev Given : Result (Response X) × World X → Type 0
    Given p =
        (r : Response X) (v : World X) → p ≡ (ok r, v) → (z : World X) × (tx_factory z ≡ (ok r, v))

    outcome-Given :
        {n i : ℕ} {w : World X} {p : Result (Response X) × World X}
        → Outcome (delay host) (submit_options message) tx_factory n i w p
        → Given p
    outcome-Given (succeeded {v = z} run below made) r v same = (z, made ∙ same)
    outcome-Given (permanent run below made final) r v same = absurd (cc)
    outcome-Given (exhausted run last made more) r v same = absurd (cc)
    outcome-Given (callback_threw run below at made more threw) r v same = absurd (cc)

    resend-Given : (w : World X) → Given (resend host message tx_factory w)
    resend-Given w = outcome-Given (
        (retry_iff_Outcome (delay host) (submit_options message) tx_factory w
            (resend host message tx_factory w) (omega arith)).0
          refl)

    -- `calls` counts the runs of the factory; only these are counted, not timers or receipts.
    module _ (calls : X → ℕ)
        (counts : (w : World X) → calls (tx_factory w).1.outside ≡ suc (calls w.outside))
        (wait_keeps : (ms : ℕ) (x : X) → calls (host.wait ms x) ≡ calls x)
        (receipt_keeps : (v u : World X) (r : Response X)
          → tx_factory v ≡ (ok r, u)
          → (w : World X)
          → calls (wait_for_receipt r receipt_timeout_ms w).1.outside ≡ calls w.outside) where
      resend_calls :
          (w : World X)
          → (calls w.outside < calls (resend host message tx_factory w).1.outside)
            × (calls (resend host message tx_factory w).1.outside ≤ calls w.outside + 5)
      unfolding delay log
      resend_calls w =
          retry_calls (delay host) (submit_options message) tx_factory (λ v. calls v.outside) counts
            (λ ms v. wait_keeps ms v.outside) (λ e i v. refl) w (omega arith)

      abbrev Within : ℕ → World X → World X → Type 0
      Within k w v = (calls w.outside ≤ calls v.outside) × (calls v.outside ≤ calls w.outside + k)

      receipt_failed_calls :
          (k attempt : ℕ) (hash : String) (next : Exec (World X) (Option Receipt)) (e : JsError)
          (u : World X)
          → ((v : World X) → Within k v (next v).1)
          → Within k u (receipt_failed host message hash attempt next e u).1
      unfolding receipt_failed log
      receipt_failed_calls k attempt hash next e u ih =
          elim (Bool-cases (ltb attempt max_displaced_retries && is_displaced e)) [
            | inl again ↦ rw again (ih (log _ u))
            | inr last ↦ rw last (omega arith)
          ]

      after_receipt_calls :
          (k attempt : ℕ) (hash : String) (next : Exec (World X) (Option Receipt))
          (q : Result (Option Receipt)) (u : World X)
          → ((v : World X) → Within k v (next v).1)
          → Within k u (or_else (q, u) (receipt_failed host message hash attempt next)).1
      after_receipt_calls k attempt hash next (ok o) u ih = omega arith
      after_receipt_calls k attempt hash next (err e) u ih =
          receipt_failed_calls k attempt hash next e u ih

      sent_calls :
          (k attempt : ℕ) (next : Exec (World X) (Option Receipt))
          (p : Result (Response X) × World X)
          → ((v : World X) → Within k v (next v).1)
          → Given p
          → Within k p.1
              (and_then p (λ response v.
                or_else
                  (wait_for_receipt response receipt_timeout_ms v)
                  (receipt_failed host message response.hash attempt next))).1
      sent_calls k attempt next (err e, v) ih given = omega arith
      sent_calls k attempt next (ok response, v) ih given =
          let (z, made) = given response v refl in
          omega (
            arith,
            receipt_keeps z v response made v,
            after_receipt_calls k attempt response.hash next
                (wait_for_receipt response receipt_timeout_ms v).0
                (wait_for_receipt response receipt_timeout_ms v).1 ih,
          )

      submit_from_calls :
          (left attempt : ℕ) (w : World X)
          → Within (5 * left) w (submit_from host message tx_factory left attempt w).1
      unfolding submit_from
      submit_from_calls zero attempt w = omega arith
      submit_from_calls (suc left) attempt w = omega (
        arith,
        resend_calls w,
        sent_calls (5 * left) attempt (submit_from host message tx_factory left (suc attempt))
            (resend host message tx_factory w) (submit_from_calls left (suc attempt))
            (resend-Given w),
      )

      submit_from_sends :
          (left attempt : ℕ) (w : World X)
          → calls w.outside
            < calls (submit_from host message tx_factory (suc left) attempt w).1.outside
      unfolding submit_from
      submit_from_sends left attempt w = omega (
        arith,
        resend_calls w,
        sent_calls (5 * left) attempt (submit_from host message tx_factory left (suc attempt))
            (resend host message tx_factory w) (submit_from_calls left (suc attempt))
            (resend-Given w),
      )

      -- If the factory counts its runs, and timers and the receipts of its responses leave that count
      -- alone, then
      -- `submit_tx` runs the factory at least once and at most 25 times, however it ends: five
      -- rounds of at most five attempts.
      pub submit_tx_calls :
          (w : World X)
          → (calls w.outside < calls (submit_tx host tx_factory message w).1.outside)
            × (calls (submit_tx host tx_factory message w).1.outside ≤ calls w.outside + 25)
      unfolding submit_tx load
      submit_tx_calls w =
          let (id, w₁) = load host message w in
          omega (
            arith,
            submit_from_sends 4 1 w₁,
            submit_from_calls 5 1 w₁,
            ap calls (receipt_checked id (submit_from host message tx_factory 5 1 w₁)),
          )
