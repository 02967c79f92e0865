-- ===== src/Polling/Runs.antt =====
-- What a poll promises, as a relation on runs: some rounds that were not ready, each followed by the
-- interval, and then one round that ends the poll.
use rayls_sovereign_tests_au.Shared.{ℕ, zero, suc, ◌<◌, Option, none, some, Bool, ◌≡◌}
use rayls_sovereign_tests_au.Js.{JsError, Result, ok, err, Exec}
use rayls_sovereign_tests_au.Polling.{ready, not_ready, failed, judge}

module _ {S A : Type 0} (wait : ℕ → S → S) (truthy : A → Bool) (check : Exec S A) (interval : ℕ)
    (tolerate : Bool) where
  -- `Pending k s v`: from `s`, exactly `k` rounds are not ready, and `v` is the state before the next.
  pub data Pending : ℕ → S → S → Type 0 where
    start : {s : S} → Pending zero s s
    again :
        {k : ℕ} {s t v : S} {r : Result A}
        → check s ≡ (r, t)
        → judge truthy tolerate r ≡ not_ready
        → Pending k (wait interval t) v
        → Pending (suc k) s v

  -- `Outcome n s r`: with `n` rounds left the poll ends from `s` as `r`: by the first truthy value, by
  -- an error that is not tolerated, or after `n` rounds, with no wait behind the last.
  pub data Outcome : ℕ → S → Result (Option A) × S → Type 0 where
    found :
        {n k : ℕ} {s v t : S} {r : Result A} {a : A}
        → Pending k s v
        → k < n
        → check v ≡ (r, t)
        → judge truthy tolerate r ≡ ready a
        → Outcome n s (ok (some a), t)
    threw :
        {n k : ℕ} {s v t : S} {r : Result A} {e : JsError}
        → Pending k s v
        → k < n
        → check v ≡ (r, t)
        → judge truthy tolerate r ≡ failed e
        → Outcome n s (err e, t)
    window_passed :
        {n k : ℕ} {s v t : S} {r : Result A}
        → Pending k s v
        → n ≡ suc k
        → check v ≡ (r, t)
        → judge truthy tolerate r ≡ not_ready
        → Outcome n s (ok none, t)
    no_window : {n : ℕ} {s : S} → n ≡ zero → Outcome n s (ok none, s)
