-- ===== src/Faults/Laws.antt =====
-- The two queries of the trigger log agree, and what a cleared session means.
use rayls_sovereign_tests_au.Shared.{
  ℕ, suc, String, List, [], ◌∷◌, Bool, true, ◌≡◌, ◌↔◌, any, keep, length, arith, ap, Bool-cases,
  inl, inr,
}
use rayls_sovereign_tests_au.Js.{Result, ok, err, and_then}
use rayls_sovereign_tests_au.Logging.{Host}
use rayls_sovereign_tests_au.Faults.{Http, SessionSnapshot}
use rayls_sovereign_tests_au.Faults.Injector.{FaultSession}
use rayls_sovereign_tests_au.Faults.Session.{log_of, fired_at, status, was_triggered, trigger_count}

any→count :
    {A : Type 0} (p : A → Bool) (xs : List A)
    → any p xs ≡ true
    → (n : ℕ) × (length (keep p xs) ≡ suc n)
any→count p [] h = absurd (cc)
any→count p (x ∷ xs) h = elim (Bool-cases (p x)) [
  | inl holds ↦ (length (keep p xs), rw holds)
  | inr fails ↦ (let (n, e) = any→count p xs (ground arith) in (n, rw fails e))
]

count→any :
    {A : Type 0} (p : A → Bool) (xs : List A) (n : ℕ) → length (keep p xs) ≡ suc n → any p xs ≡ true
count→any p [] n h = absurd (omega arith)
count→any p (x ∷ xs) n h = elim (Bool-cases (p x)) [
  | inl holds ↦ rw holds
  | inr fails ↦ rw fails (count→any p xs n (rw fails at h))
]

module _ {X : Type 0} (host : Host X) (http : Http X) (session : FaultSession)
    (point : String) where
  -- Asked from the same world, a point was triggered exactly if its trigger count is not zero.
  pub was_triggered_iff_count :
      (x : X)
      → ((was_triggered host http session point x).0 ≡ ok true)
        ↔ ((n : ℕ) × ((trigger_count host http session point x).0 ≡ ok (suc n)))
  unfolding was_triggered trigger_count
  was_triggered_iff_count x =
      (there (status host http session x), back (status host http session x))
    where
      there :
          (p : Result SessionSnapshot × X)
          → (and_then p (λ s y. (ok (any (fired_at point) (log_of s)), y))).0 ≡ ok true
          → (n : ℕ) × ((and_then p (λ s y. (ok (length (keep (fired_at point) (log_of s))), y))).0
              ≡ ok (suc n))
      there (ok s, y) e =
          let (n, same) = any→count (fired_at point) (log_of s) (cc) in (n, ap ok same)
      there (err x, y) e = absurd (cc)

      back :
          (p : Result SessionSnapshot × X)
          → ((n : ℕ) × ((and_then p (λ s y. (ok (length (keep (fired_at point) (log_of s))), y))).0
                ≡ ok (suc n)))
          → (and_then p (λ s y. (ok (any (fired_at point) (log_of s)), y))).0 ≡ ok true
      back (ok s, y) (n, e) = ap ok (count→any (fired_at point) (log_of s) n (cc))
      back (err x, y) (n, e) = absurd (cc)
