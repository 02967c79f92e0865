-- ===== src/Polling/Recorded.antt =====
-- A poll whose check also writes local variables runs as the poll of the check alone.
use rayls_sovereign_tests_au.Shared.{
  ℕ, zero, suc, Option, Bool, ◌≡◌, refl, ltb, Bool-cases, inl, inr,
}
use rayls_sovereign_tests_au.Js.{Result, Exec}
use rayls_sovereign_tests_au.Polling.{
  Verdict, ready, not_ready, failed, judge, after_check, poll_from, poll, recorded, wait_beside,
}

module _ {S A L : Type 0} (wait : ℕ → S → S) (truthy : A → Bool) (check : Exec S A)
    (interval attempts : ℕ) (tolerate : Bool) (note : L → Result A → L) where
  abbrev plain : ℕ → ℕ → Exec S (Option A)
  plain = poll_from wait truthy check interval attempts tolerate

  abbrev beside : ℕ → ℕ → Exec (L × S) (Option A)
  beside = poll_from (wait_beside wait) truthy (recorded note check) interval attempts tolerate

  -- The run with local variables gives the same result and reaches the same state.
  abbrev Agrees : Result (Option A) × (L × S) → Result (Option A) × S → Type 0
  Agrees p q = (l : L) × (p ≡ (q.0, (l, q.1)))

  after_check-Agrees :
      (left i : ℕ) (l : L) (s : S)
      → ((m : L) (t : S) → Agrees (beside left (suc i) (m, t)) (plain left (suc i) t))
      → (j : Verdict A)
      → Agrees
          (after_check
            (wait_beside wait)
            truthy
            (recorded note check)
            interval
            attempts
            tolerate
            i
            (beside left (suc i))
            j
            (l, s))
          (after_check wait truthy check interval attempts tolerate i (plain left (suc i)) j s)
  unfolding after_check
  after_check-Agrees left i l s ih (ready v) = (l, refl)
  after_check-Agrees left i l s ih (failed e) = (l, refl)
  after_check-Agrees left i l s ih not_ready = elim (Bool-cases (ltb i attempts)) [
    | inl more ↦ rw more (ih l (wait interval s))
    | inr last ↦ rw last (ih l s)
  ]

  poll_from-Agrees : (left i : ℕ) (l : L) (s : S) → Agrees (beside left i (l, s)) (plain left i s)
  unfolding poll_from recorded
  poll_from-Agrees zero i l s = (l, refl)
  poll_from-Agrees (suc left) i l s =
      after_check-Agrees left i (note l (check s).0) (check s).1
        (λ m t. poll_from-Agrees left (suc i) m t) (judge truthy tolerate (check s).0)

  pub poll-recorded :
      (l : L) (s : S)
      → Agrees
          (poll (wait_beside wait) truthy (recorded note check) interval attempts tolerate (l, s))
          (poll wait truthy check interval attempts tolerate s)
  unfolding poll
  poll-recorded l s = poll_from-Agrees attempts 1 l s
