-- ===== src/Polling/Waits.antt =====
-- `eventually` and `never`: how each ends, from how the poll of its check ends, and what each does
-- to the load table of the logger.
use rayls_sovereign_tests_au.Shared.{
  ℕ, suc, String, Option, none, some, Bool, ◌≡◌, ◌↔◌, ◌∙◌, refl, ap, sym,
}
use rayls_sovereign_tests_au.Js.{JsError, Result, ok, err, Exec}
use rayls_sovereign_tests_au.Logging.{Host, World, delay, load, load_success, load_error}
use rayls_sovereign_tests_au.Polling.{
  PollOptions, poll_interval, poll_attempts, poll, Observed, nothing_observed, note, exhaustion,
  wait_over, eventually, window_over, never,
}
use rayls_sovereign_tests_au.Polling.Recorded.{poll-recorded}
use rayls_sovereign_tests_au.Polling.Runs.{Outcome}
use rayls_sovereign_tests_au.Polling.Laws.{poll_iff_Outcome}

module _ {X A : Type 0} (host : Host X) (workers : ℕ) (truthy : A → Bool) (json : A → String)
    (message : String) (opts : PollOptions (World X) A) where
  -- The poll of the check alone, and the id of the load and the world that the wait starts in.
  abbrev pub poll_of : Exec (World X) (Option A)
  poll_of =
      poll (delay host) truthy opts.check (poll_interval opts) (poll_attempts workers opts)
        opts.tolerate_errors

  abbrev pub started : World X → World X
  started w = (load host message w).1

  abbrev pub load_id : World X → ℕ
  load_id w = (load host message w).0

  abbrev pub Ends : World X → Result (Option A) × World X → Type 0
  Ends w r =
      Outcome (delay host) truthy opts.check (poll_interval opts) opts.tolerate_errors
        (poll_attempts workers opts) (started w) r

  eventually_of_poll :
      (w : World X)
      → (seen : Observed A) × (eventually host workers truthy json message opts w
          ≡ wait_over host workers truthy json message opts
              (load_id w)
              ((poll_of (started w)).0, (seen, (poll_of (started w)).1)))
  unfolding eventually
  eventually_of_poll w =
      let (seen, e) =
        poll-recorded (delay host) truthy opts.check (poll_interval opts)
          (poll_attempts workers opts) opts.tolerate_errors (note host workers truthy json)
          nothing_observed (started w) in
      (seen, ap (wait_over host workers truthy json message opts (load_id w)) e)

  never_of_poll :
      (w : World X)
      → (n : ℕ) × (never host workers truthy json message opts w
          ≡ window_over host workers truthy json message
              (load_id w)
              ((poll_of (started w)).0, (n, (poll_of (started w)).1)))
  unfolding never
  never_of_poll w =
      let (n, e) =
        poll-recorded (delay host) truthy opts.check (poll_interval opts)
          (poll_attempts workers opts) opts.tolerate_errors (λ n _. suc n) 0 (started w) in
      (n, ap (window_over host workers truthy json message (load_id w)) e)

  -- The same, split by the result of the poll.
  eventually_at :
      (w t : World X) (r : Result (Option A))
      → poll_of (started w) ≡ (r, t)
      → (seen : Observed A) × (eventually host workers truthy json message opts w
          ≡ wait_over host workers truthy json message opts (load_id w) (r, (seen, t)))
  eventually_at w t r p =
      let (seen, e) = eventually_of_poll w in
      (
        seen,
        e
            ∙ ap
                (λ (q : Result (Option A) × World X).
                  wait_over host workers truthy json message opts (load_id w) (q.0, (seen, q.1)))
                p,
      )

  never_at :
      (w t : World X) (r : Result (Option A))
      → poll_of (started w) ≡ (r, t)
      → (n : ℕ) × (never host workers truthy json message opts w
          ≡ window_over host workers truthy json message (load_id w) (r, (n, t)))
  never_at w t r p =
      let (n, e) = never_of_poll w in
      (
        n,
        e
            ∙ ap
                (λ (q : Result (Option A) × World X).
                  window_over host workers truthy json message (load_id w) (q.0, (n, q.1)))
                p,
      )

  Ends-of_poll :
      (w : World X) (r : Result (Option A) × World X) → (poll_of (started w) ≡ r) ↔ Ends w r
  Ends-of_poll w r =
      poll_iff_Outcome (delay host) truthy opts.check (poll_interval opts)
        (poll_attempts workers opts) opts.tolerate_errors (started w) r

  -- How `eventually` comes back: with a value, by giving up, or by an error of the check.
  pub eventually-found :
      (w t : World X) (v : A)
      → Ends w (ok (some v), t)
      → eventually host workers truthy json message opts w ≡ (ok v, load_success host (load_id w) t)
  unfolding wait_over
  eventually-found w t v h = (eventually_at w t (ok (some v)) ((Ends-of_poll w _).1 h)).1

  pub eventually-exhausted :
      (w t : World X)
      → Ends w (ok none, t)
      → (seen : Observed A) × (eventually host workers truthy json message opts w ≡ (
        err (exhaustion host workers truthy json message opts seen),
        load_error host (load_id w) t,
      ))
  unfolding wait_over
  eventually-exhausted w t h = eventually_at w t (ok none) ((Ends-of_poll w _).1 h)

  pub eventually-threw :
      (w t : World X) (e : JsError)
      → Ends w (err e, t)
      → eventually host workers truthy json message opts w ≡ (err e, t)
  unfolding wait_over
  eventually-threw w t e h = (eventually_at w t (err e) ((Ends-of_poll w _).1 h)).1

  eventually_value :
      (w u t : World X) (v : A) (r : Result (Option A))
      → poll_of (started w) ≡ (r, t)
      → eventually host workers truthy json message opts w ≡ (ok v, u)
      → (r ≡ ok (some v)) × (u ≡ load_success host (load_id w) t)
  unfolding wait_over
  eventually_value w u t v (ok (some x)) p e =
      let (seen, q) = eventually_at w t (ok (some x)) p in (cc, cc)
  eventually_value w u t v (ok none) p e =
      let (seen, q) = eventually_at w t (ok none) p in absurd (cc)
  eventually_value w u t v (err x) p e = let (seen, q) = eventually_at w t (err x) p in absurd (cc)

  -- `eventually` returns `v` exactly if the poll of its check, begun once the load is registered, ends
  -- with `v`; the load is then finished as a success and nothing else has changed.
  pub eventually_iff :
      (w u : World X) (v : A)
      → (eventually host workers truthy json message opts w ≡ (ok v, u))
        ↔ ((t : World X) × Ends w (ok (some v), t) × (u ≡ load_success host (load_id w) t))
  eventually_iff w u v = (
    (λ e.
        let t = (poll_of (started w)).1 in
        let r = (poll_of (started w)).0 in
        let (value, same) = eventually_value w u t v r refl e in
        (t, (Ends-of_poll w _).0 (ap (λ (q : Result (Option A)). (q, t)) value), same)),
    (λ h. let (t, run, same) = h in eventually-found w t v run ∙ ap (λ x. (ok v, x)) (sym same)),
  )

  never_result :
      (w u t : World X) (r : Result (Option A))
      → poll_of (started w) ≡ (r, t)
      → never host workers truthy json message opts w ≡ (ok tt, u)
      → (r ≡ ok none) × (u ≡ load_success host (load_id w) t)
  unfolding window_over
  never_result w u t (ok none) p e = let (n, q) = never_at w t (ok none) p in (refl, cc)
  never_result w u t (ok (some x)) p e = let (n, q) = never_at w t (ok (some x)) p in absurd (cc)
  never_result w u t (err x) p e = let (n, q) = never_at w t (err x) p in absurd (cc)

  -- `never` succeeds exactly if the poll of its check runs through the whole window with no truthy
  -- value and no error that is not tolerated; its load is then finished as a success.
  pub never_iff :
      (w u : World X)
      → (never host workers truthy json message opts w ≡ (ok tt, u))
        ↔ ((t : World X) × Ends w (ok none, t) × (u ≡ load_success host (load_id w) t))
  unfolding window_over
  never_iff w u = (
    (λ e.
        let t = (poll_of (started w)).1 in
        let r = (poll_of (started w)).0 in
        let (value, same) = never_result w u t r refl e in
        (t, (Ends-of_poll w _).0 (ap (λ (q : Result (Option A)). (q, t)) value), same)),
    (λ h.
        let (t, run, same) = h in
        (never_at w t (ok none) ((Ends-of_poll w _).1 run)).1 ∙ ap (λ x. (ok tt, x)) (sym same)),
  )

  -- On the same check from the same world, `eventually` and `never` cannot both succeed.
  pub never-eventually_exclusive :
      (w u u' : World X) (v : A)
      → eventually host workers truthy json message opts w ≡ (ok v, u)
      → never host workers truthy json message opts w ≡ (ok tt, u')
      → ⊥
  never-eventually_exclusive w u u' v e n =
      let t = (poll_of (started w)).1 in
      let r = (poll_of (started w)).0 in
      let (value, _) = eventually_value w u t v r refl e in
      let (nothing, _) = never_result w u' t r refl n in cc
