-- ===== src/Transactions/Loads.antt =====
-- What `submit_tx` does to the load table, if neither the factory nor the chain touches the logger's
-- load table.
use rayls_sovereign_tests_au.Shared.{
  ℕ, zero, suc, String, Option, none, some, List, ◌∷◌, ◌≡◌, ◌∙◌, refl, arith, ap, ltb, ◌&&◌,
  Bool-cases, inl, inr,
}
use rayls_sovereign_tests_au.Js.{JsError, Result, ok, err, Exec, and_then, or_else}
use rayls_sovereign_tests_au.Logging.{Host, World, Load, log, load, load_success, delay}
use rayls_sovereign_tests_au.Logging.Laws.{IsConsistent, load-finish_load_balanced}
use rayls_sovereign_tests_au.Retry.Calls.{retry_keeps}
use rayls_sovereign_tests_au.Transactions.{
  raced, Receipt, Response, wait_for_receipt, receipt_timeout_ms, submit_options, resend,
  is_displaced, receipt_failed, submit_from, check_receipt, submit_tx, max_displaced_retries,
}

logger-wait_for_receipt :
    {X : Type 0} (response : Response X) (ms : ℕ) (w : World X)
    → (wait_for_receipt response ms w).1.logger ≡ w.logger
unfolding wait_for_receipt
logger-wait_for_receipt response ms w = go (response.settled ms w.outside).0
  where
    go :
        (o : Option (Result (Option Receipt)))
        → (raced response.hash ms
            (o, record w { outside = (response.settled ms w.outside).1 })).1.logger
          ≡ w.logger
    go none = refl
    go (some r) = refl

module _ {X : Type 0} (host : Host X) (message : String) (tx_factory : Exec (World X) (Response X))
    (table : List (ℕ × Load)) where
  abbrev HasTable : World X → Type 0
  HasTable w = w.logger.active_loads ≡ table

  module _ (factory_keeps : (w : World X) → HasTable w → HasTable (tx_factory w).1) where
    resend-HasTable : (w : World X) → HasTable w → HasTable (resend host message tx_factory w).1
    unfolding delay log
    resend-HasTable w =
        retry_keeps (delay host) (submit_options message) tx_factory HasTable factory_keeps
          (λ ms v h. h) (λ e i v h. h) w (omega arith)

    receipt_failed-HasTable :
        (attempt : ℕ) (hash : String) (next : Exec (World X) (Option Receipt))
        (q : Result (Option Receipt)) (u : World X)
        → ((v : World X) → HasTable v → HasTable (next v).1)
        → HasTable u
        → HasTable (or_else (q, u) (receipt_failed host message hash attempt next)).1
    unfolding receipt_failed log
    receipt_failed-HasTable attempt hash next (ok o) u ih h = h
    receipt_failed-HasTable attempt hash next (err e) u ih h =
        elim (Bool-cases (ltb attempt max_displaced_retries && is_displaced e)) [
          | inl again ↦ rw again (ih (log _ u) h)
          | inr last ↦ rw last h
        ]

    sent-HasTable :
        (attempt : ℕ) (next : Exec (World X) (Option Receipt)) (p : Result (Response X) × World X)
        → ((v : World X) → HasTable v → HasTable (next v).1)
        → HasTable p.1
        → HasTable
            (and_then p (λ response v.
              or_else
                (wait_for_receipt response receipt_timeout_ms v)
                (receipt_failed host message response.hash attempt next))).1
    sent-HasTable attempt next (err e, v) ih h = h
    sent-HasTable attempt next (ok response, v) ih h =
        receipt_failed-HasTable attempt response.hash next
          (wait_for_receipt response receipt_timeout_ms v).0
          (wait_for_receipt response receipt_timeout_ms v).1 ih
          (ap (λ l. l.active_loads) (logger-wait_for_receipt response receipt_timeout_ms v) ∙ h)

    submit_from-HasTable :
        (left attempt : ℕ) (w : World X)
        → HasTable w
        → HasTable (submit_from host message tx_factory left attempt w).1
    unfolding submit_from
    submit_from-HasTable zero attempt w h = h
    submit_from-HasTable (suc left) attempt w h =
        sent-HasTable attempt (submit_from host message tx_factory left (suc attempt))
          (resend host message tx_factory w) (submit_from-HasTable left (suc attempt))
          (resend-HasTable w h)

module _ {X : Type 0} (host : Host X) (message : String) (tx_factory : Exec (World X) (Response X))
    (factory_keeps : (w : World X)
      → (tx_factory w).1.logger.active_loads ≡ w.logger.active_loads) where
  submitted-table :
      (w : World X)
      → (submit_from host message tx_factory 5 1 (load host message w).1).1.logger.active_loads
        ≡ (load host message w).1.logger.active_loads
  submitted-table w =
      submit_from-HasTable host message tx_factory (load host message w).1.logger.active_loads
        (λ v h. factory_keeps v ∙ h) 5 1 (load host message w).1 refl

  -- How the check of the receipt ends, from the table that it finds.
  checked-ok :
      (w u : World X) (r : Receipt) (p : Result (Option Receipt) × World X)
      → IsConsistent w
      → p.1.logger.active_loads ≡ (load host message w).1.logger.active_loads
      → and_then p (check_receipt host message (load host message w).0) ≡ (ok r, u)
      → u.logger.active_loads ≡ w.logger.active_loads
  unfolding check_receipt load_success
  checked-ok w u r (err e, v) h same ends = absurd (cc)
  checked-ok w u r (ok none, v) h same ends = absurd (cc)
  checked-ok w u r (ok (some x), v) h same ends =
      ground (arith, load-finish_load_balanced host message "SUCCESS" w v h same)

  checked-err :
      (id : ℕ) (e : JsError) (u : World X) (p : Result (Option Receipt) × World X)
      → and_then p (check_receipt host message id) ≡ (err e, u)
      → u.logger.active_loads ≡ p.1.logger.active_loads
  unfolding check_receipt
  checked-err id e u (err x, v) ends = cc
  checked-err id e u (ok none, v) ends = cc
  checked-err id e u (ok (some x), v) ends = ground arith

  -- If the factory leaves the load table alone and the logger is consistent, a submission that
  -- returns a receipt leaves the table as it was.
  pub active_loads-submit_tx :
      (w u : World X) (r : Receipt)
      → IsConsistent w
      → submit_tx host tx_factory message w ≡ (ok r, u)
      → u.logger.active_loads ≡ w.logger.active_loads
  unfolding submit_tx
  active_loads-submit_tx w u r h ends =
      checked-ok w u r (submit_from host message tx_factory 5 1 (load host message w).1) h
        (submitted-table w) ends

  -- If the factory leaves the load table alone, a submission that throws, for whatever reason, leaves
  -- one more entry in the table, under its own id and message: no path finishes the load as an error.
  pub active_loads-submit_tx_threw :
      (w u : World X) (e : JsError)
      → submit_tx host tx_factory message w ≡ (err e, u)
      → (entry : Load) × (u.logger.active_loads
          ≡ (w.logger.next_load_id, entry) ∷ w.logger.active_loads)
        × (entry.message ≡ message)
  unfolding submit_tx load
  active_loads-submit_tx_threw w u e ends = (
    record { message = message; start_time = host.now w.outside },
    checked-err w.logger.next_load_id e u
          (submit_from host message tx_factory 5 1 (load host message w).1) ends
        ∙ submitted-table w,
    refl,
  )
