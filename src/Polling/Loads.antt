-- ===== src/Polling/Loads.antt =====
-- What a returned value is, and what `eventually` does to the load table of the logger, for a check
-- that leaves that table alone.
use rayls_sovereign_tests_au.Shared.{
  ℕ, String, Option, none, some, ◌∷◌, ◌<◌, Bool, true, ◌≡◌, ◌∙◌, refl, ap, sym, arith,
}
use rayls_sovereign_tests_au.Js.{JsError, Result, ok, err}
use rayls_sovereign_tests_au.Logging.{Host, World, Load, delay, load, load_success, load_error}
use rayls_sovereign_tests_au.Logging.Laws.{IsConsistent, load-finish_load_balanced}
use rayls_sovereign_tests_au.Polling.{
  PollOptions, judge, ready, eventually, poll_interval, poll_attempts,
}
use rayls_sovereign_tests_au.Polling.Runs.{
  Pending, start, again, Outcome, found, threw, window_passed, no_window,
}
use rayls_sovereign_tests_au.Polling.Waits.{
  Ends, eventually_iff, eventually-found, eventually-exhausted, eventually-threw,
}

judge-ready :
    {A : Type 0} (truthy : A → Bool) (tolerate : Bool) (r : Result A) (a : A)
    → judge truthy tolerate r ≡ ready a
    → (r ≡ ok a) × (truthy a ≡ true)
judge-ready truthy tolerate (ok v) a h = ground arith
judge-ready truthy tolerate (err e) a h = ground arith

module _ {X A : Type 0} (host : Host X) (workers : ℕ) (truthy : A → Bool) (message : String)
    (opts : PollOptions (World X) A) where
  -- `Reached w z`: a wait that is begun in `w` comes to `z` before one of its rounds.
  abbrev pub Reached : World X → World X → Type 0
  Reached w z =
      (k : ℕ) × (k < poll_attempts workers opts)
      × Pending (delay host) truthy opts.check (poll_interval opts) opts.tolerate_errors k
          (load host message w).1 z

module _ {X A : Type 0} (host : Host X) (workers : ℕ) (truthy : A → Bool) (json : A → String)
    (message : String) (opts : PollOptions (World X) A) where
  -- The check gave `v` in a state that the wait begun in `w` reached, and `v` is truthy.
  abbrev pub Checked : World X → A → Type 0
  Checked w v =
      (z t : World X) × (opts.check z ≡ (ok v, t))
      × (truthy v ≡ true)
      × Reached host workers truthy message opts w z

  value-Checked :
      (w : World X) {t : World X} {v : A} {r : Result (Option A) × World X}
      → Outcome
          (delay host)
          truthy
          opts.check
          (poll_interval opts)
          opts.tolerate_errors
          (poll_attempts workers opts)
          (load host message w).1
          r
      → r ≡ (ok (some v), t)
      → Checked w v
  value-Checked w {v = v} (found {k = k} {v = z} {t = t} {r = q} {a = a} run h f is_ready) e =
      let (value, holds) = judge-ready truthy opts.tolerate_errors q a is_ready in
      let same : a ≡ v = cc in
      (z, t, f ∙ ap (λ x. (x, t)) (value ∙ ap ok same), ap truthy (sym same) ∙ holds, (k, h, run))
  value-Checked w (threw run h f i) e = absurd (cc)
  value-Checked w (window_passed run h f i) e = absurd (cc)
  value-Checked w (no_window h) e = absurd (cc)

  -- A value that `eventually` returns was given by the check, and is truthy: a wait for a falsy value
  -- never succeeds.
  pub eventually-Checked :
      (w u : World X) (v : A)
      → eventually host workers truthy json message opts w ≡ (ok v, u)
      → Checked w v
  eventually-Checked w u v e =
      let (t, run, _) = (eventually_iff host workers truthy json message opts w u v).0 e in
      value-Checked w run refl

  module _ (keeps : (w : World X) → (opts.check w).1.logger ≡ w.logger) where
    logger-Pending :
        {k : ℕ} {s v : World X}
        → Pending (delay host) truthy opts.check (poll_interval opts) opts.tolerate_errors k s v
        → v.logger ≡ s.logger
    unfolding delay
    logger-Pending start = refl
    logger-Pending (again {s = s} {t = t} e pending run) =
        logger-Pending run ∙ (ap (λ p. p.1.logger) (sym e) ∙ keeps s)

    logger-check : {s t : World X} {r : Result A} → opts.check s ≡ (r, t) → t.logger ≡ s.logger
    logger-check {s} e = ap (λ p. p.1.logger) (sym e) ∙ keeps s

    logger-Outcome :
        {n : ℕ} {s : World X} {r : Result (Option A) × World X}
        → Outcome (delay host) truthy opts.check (poll_interval opts) opts.tolerate_errors n s r
        → r.1.logger ≡ s.logger
    logger-Outcome (found run h f w) = logger-check f ∙ logger-Pending run
    logger-Outcome (threw run h f w) = logger-check f ∙ logger-Pending run
    logger-Outcome (window_passed run h f w) = logger-check f ∙ logger-Pending run
    logger-Outcome (no_window h) = refl

    -- If the check leaves the logger alone and the logger is consistent, a wait that finds a value
    -- leaves the load table as it was.
    pub active_loads-eventually_found :
        (w t : World X) (v : A)
        → IsConsistent w
        → Ends host workers truthy json message opts w (ok (some v), t)
        → (eventually host workers truthy json message opts w).1.logger.active_loads
          ≡ w.logger.active_loads
    unfolding load_success
    active_loads-eventually_found w t v h run =
        rw (eventually-found host workers truthy json message opts w t v run) (
          load-finish_load_balanced host message "SUCCESS" w t h
            (ap (λ l. l.active_loads) (logger-Outcome run)))

    -- So does a wait that gives up at the end of its window.
    pub active_loads-eventually_exhausted :
        (w t : World X)
        → IsConsistent w
        → Ends host workers truthy json message opts w (ok none, t)
        → (eventually host workers truthy json message opts w).1.logger.active_loads
          ≡ w.logger.active_loads
    unfolding load_error
    active_loads-eventually_exhausted w t h run =
        let (seen, e) = eventually-exhausted host workers truthy json message opts w t run in
        rw e (
          load-finish_load_balanced host message "ERROR" w t h
            (ap (λ l. l.active_loads) (logger-Outcome run)))

    -- If the check leaves the logger alone, a wait that an error of the check ends leaves its load
    -- active: the load table has one more entry, with the message of the wait.
    pub active_loads-eventually_threw :
        (w t : World X) (e : JsError)
        → Ends host workers truthy json message opts w (err e, t)
        → (entry : Load) × ((eventually host workers truthy json message opts
              w).1.logger.active_loads
            ≡ (w.logger.next_load_id, entry) ∷ w.logger.active_loads)
          × (entry.message ≡ message)
    unfolding load
    active_loads-eventually_threw w t e run =
        let entry : Load = record { message = message; start_time = host.now w.outside } in
        (
          entry,
          ap (λ p. p.1.logger.active_loads)
                (eventually-threw host workers truthy json message opts w t e run)
              ∙ ap (λ l. l.active_loads) (logger-Outcome run),
          refl,
        )
