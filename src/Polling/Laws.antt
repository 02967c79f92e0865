-- ===== src/Polling/Laws.antt =====
-- The polling loop and the relation on runs agree, in both directions.
use rayls_sovereign_tests_au.Shared.{
  ℕ, zero, suc, ◌+◌, ◌<◌, Option, none, some, Bool, true, ◌≡◌, ◌∙◌, refl, arith, ltb, ◌↔◌,
}
use rayls_sovereign_tests_au.Js.{JsError, Result, ok, err, Exec}
use rayls_sovereign_tests_au.Polling.{
  Verdict, ready, not_ready, failed, judge, after_check, poll_from, poll,
}
use rayls_sovereign_tests_au.Polling.Runs.{
  Pending, start, again, Outcome, found, threw, window_passed, no_window,
}

module _ {S A : Type 0} (wait : ℕ → S → S) (truthy : A → Bool) (check : Exec S A)
    (interval attempts : ℕ) (tolerate : Bool) where
  abbrev loop : ℕ → ℕ → Exec S (Option A)
  loop = poll_from wait truthy check interval attempts tolerate

  abbrev verdict : Result A → Verdict A
  verdict = judge truthy tolerate

  poll_from-ready :
      (left i : ℕ) {s t : S} {r : Result A} {a : A}
      → check s ≡ (r, t)
      → verdict r ≡ ready a
      → loop (suc left) i s ≡ (ok (some a), t)
  unfolding poll_from after_check
  poll_from-ready left i e is_ready = rw e (rw is_ready)

  poll_from-failed :
      (left i : ℕ) {s t : S} {r : Result A} {x : JsError}
      → check s ≡ (r, t)
      → verdict r ≡ failed x
      → loop (suc left) i s ≡ (err x, t)
  unfolding poll_from after_check
  poll_from-failed left i e has_failed = rw e (rw has_failed)

  poll_from-last :
      (i : ℕ) {s t : S} {r : Result A}
      → check s ≡ (r, t)
      → verdict r ≡ not_ready
      → i ≡ attempts
      → loop (suc zero) i s ≡ (ok none, t)
  unfolding poll_from after_check
  poll_from-last i e pending last = rw e (rw pending (ground arith))

  poll_from-again :
      (left i : ℕ) {s t : S} {r : Result A}
      → check s ≡ (r, t)
      → verdict r ≡ not_ready
      → i < attempts
      → loop (suc left) i s ≡ loop left (suc i) (wait interval t)
  unfolding poll_from after_check
  poll_from-again left i e pending more = rw e (rw pending (rw (has_more i attempts more)))
    where
      has_more : (a b : ℕ) → a < b → ltb a b ≡ true
      has_more a b h = ground arith

  -- One more round that was not ready in front of a run.
  Outcome-again :
      {n : ℕ} {s t : S} {q : Result A} {r : Result (Option A) × S}
      → check s ≡ (q, t)
      → verdict q ≡ not_ready
      → 0 < n
      → Outcome wait truthy check interval tolerate n (wait interval t) r
      → Outcome wait truthy check interval tolerate (suc n) s r
  Outcome-again e pending pos (found run h f w) = found (again e pending run) (omega arith) f w
  Outcome-again e pending pos (threw run h f w) = threw (again e pending run) (omega arith) f w
  Outcome-again e pending pos (window_passed run h f w) =
      window_passed (again e pending run) (omega arith) f w
  Outcome-again e pending pos (no_window none_left) = absurd (omega arith)

  Outcome_of_check :
      (left i : ℕ) (s : S)
      → i + left ≡ attempts
      → ((u : S)
          → 0 < left
          → Outcome wait truthy check interval tolerate left u (loop left (suc i) u))
      → (r : Result A) (t : S) → check s ≡ (r, t)
      → (j : Verdict A) → verdict r ≡ j
      → Outcome wait truthy check interval tolerate (suc left) s (loop (suc left) i s)
  Outcome_of_check left i s room ih r t e (ready a) j =
      rw (poll_from-ready left i e j) (found start (omega arith) e j)
  Outcome_of_check left i s room ih r t e (failed x) j =
      rw (poll_from-failed left i e j) (threw start (omega arith) e j)
  Outcome_of_check zero i s room ih r t e not_ready j =
      rw (poll_from-last i e j (omega arith)) (window_passed start refl e j)
  Outcome_of_check (suc left) i s room ih r t e not_ready j =
      rw (poll_from-again (suc left) i e j (omega arith))
        (Outcome-again e j (omega arith) (ih (wait interval t) (omega arith)))

  poll_from-Outcome :
      (left i : ℕ) (s : S)
      → i + left ≡ suc attempts
      → Outcome wait truthy check interval tolerate left s (loop left i s)
  unfolding poll_from
  poll_from-Outcome zero i s room = no_window refl
  poll_from-Outcome (suc left) i s room =
      Outcome_of_check left i s (omega arith)
        (λ u _. poll_from-Outcome left (suc i) u (omega arith)) (check s).0 (check s).1 refl
        (verdict (check s).0) refl

  poll_from-Pending :
      (left i : ℕ) {k : ℕ} {s v : S} {r : Result (Option A) × S}
      → Pending wait truthy check interval tolerate k s v
      → k < left
      → i + left ≡ suc attempts
      → ((m j : ℕ) → suc m + k ≡ left → j ≡ i + k → loop (suc m) j v ≡ r)
      → loop left i s ≡ r
  poll_from-Pending zero i run h room final = absurd (omega arith)
  poll_from-Pending (suc left) i start h room final = final left i (omega arith) (omega arith)
  poll_from-Pending (suc left) i (again e pending run) h room final =
      poll_from-again left i e pending (omega arith)
      ∙ poll_from-Pending left (suc i) run (omega arith) (omega arith)
          (λ m j same at. final m j (omega arith) (omega arith))

  Outcome-poll_from :
      (left i : ℕ) (s : S) (r : Result (Option A) × S)
      → i + left ≡ suc attempts
      → Outcome wait truthy check interval tolerate left s r
      → loop left i s ≡ r
  unfolding poll_from
  Outcome-poll_from left i s _ room (found run h f w) =
      poll_from-Pending left i run h room (λ m j _ _. poll_from-ready m j f w)
  Outcome-poll_from left i s _ room (threw run h f w) =
      poll_from-Pending left i run h room (λ m j _ _. poll_from-failed m j f w)
  Outcome-poll_from left i s _ room (window_passed {t = t} run h f w) =
      poll_from-Pending left i run (omega arith) room (λ m j same at.
        let only : m ≡ zero = omega arith in rw only (poll_from-last j f w (omega arith)))
  Outcome-poll_from zero i s _ room (no_window gone) = refl
  Outcome-poll_from (suc left) i s _ room (no_window gone) = absurd (omega arith)

  pub poll_iff_Outcome :
      (s : S) (r : Result (Option A) × S)
      → (poll wait truthy check interval attempts tolerate s ≡ r)
        ↔ Outcome wait truthy check interval tolerate attempts s r
  unfolding poll
  poll_iff_Outcome s r = (
    (λ e. rw (← e) (poll_from-Outcome attempts 1 s (omega arith))),
    (λ run. Outcome-poll_from attempts 1 s r (omega arith) run),
  )
