-- ===== src/Runner/Queue/Failures.antt =====
-- The list of failures and the flag to give up, of scripts/runners/base-parallel-runner.js.
use mathlib.Core.List.{Memᴰ}
use rayls_sovereign_tests_au.Shared.{
  ℕ, zero, suc, ◌+◌, ◌<◌, Option, none, some, true, false, List, [], ◌∷◌, ◌++◌, length,
  length-append, ◌≡◌, refl, ap, ◌∙◌, inl, inr, arith, Bool-cases, if◌then◌else◌,
}
use rayls_sovereign_tests_au.Runner.Queue.{
  Plan, Queue, Failure, Reach, pull, close, completed, failed, contains_text, is_success,
}
use rayls_sovereign_tests_au.Runner.Queue.Rules.{pull_rule, close_rule, reach_rule}

-- The closed children with a code other than 0.
abbrev pub count_failed : List (ℕ × Option ℕ) → ℕ
count_failed [] = 0
count_failed ((k, code) ∷ cs) = (if is_success code then 0 else 1) + count_failed cs

pub code_zero : (code : Option ℕ) → is_success code ≡ true → code ≡ some 0
code_zero none h = absurd (cc)
code_zero (some zero) h = refl
code_zero (some (suc n)) h = absurd (cc)

pub none_failed :
    (cs : List (ℕ × Option ℕ)) (k : ℕ) (code : Option ℕ)
    → count_failed cs ≡ 0
    → Memᴰ (k, code) cs
    → code ≡ some 0
none_failed [] k code h m = elim m [ ]
none_failed ((k', code') ∷ cs) k code h (Memᴰ.head e) =
    let same : code ≡ code' = ap (λ c. c.1) e in
    elim (Bool-cases (is_success code')) [
      | inl passed ↦ same ∙ code_zero code' passed
      | inr not_passed ↦ absurd (ground arith)
    ]
none_failed ((k', code') ∷ cs) k code h (Memᴰ.tail m) = none_failed cs k code (omega arith) m

length-snoc : (fs : List Failure) (f : Failure) → length (fs ++ f ∷ []) ≡ suc (length fs)
length-snoc fs f = omega (arith, length-append fs (f ∷ []))

module _ (p : Plan) where
  -- The list of failures has one entry for each child that closed with another code than 0; and the
  -- flag to give up is set exactly if the phase bails and there is a failure.
  abbrev pub Counted : Queue → Type 0
  Counted q =
      (length q.failures ≡ count_failed q.closed)
      × (q.bail_flag ≡ true → contains_text "--bail" p.flags ≡ true)
      × (q.bail_flag ≡ true → 0 < length q.failures)
      × (contains_text "--bail" p.flags ≡ true → q.bail_flag ≡ false → length q.failures ≡ 0)

  pull-Counted : (i r : ℕ) (q : Queue) → Counted q → Counted (pull p i r q)
  pull-Counted i r q h = pull_rule p Counted i r q (λ e. h) (λ e past. h) (λ e more. h)

  passed-Counted :
      (i k : ℕ) (code : Option ℕ) (ms : ℕ) (q : Queue)
      → is_success code ≡ true
      → Counted q
      → Counted (completed p i k code ms q)
  passed-Counted i k code ms q e h = (rw e (omega (arith, h.0)), h.1, h.2, h.3)

  one_more_failure :
      (i k : ℕ) (q : Queue) → length (failed p i k q).failures ≡ suc (length q.failures)
  one_more_failure i k q = length-snoc q.failures _

  failed-count :
      (i k : ℕ) (code : Option ℕ) (ms : ℕ) (q : Queue)
      → is_success code ≡ false
      → Counted q
      → length (failed p i k (completed p i k code ms q)).failures
        ≡ count_failed (completed p i k code ms q).closed
  failed-count i k code ms q e h =
      rw e (omega (arith, h.0, one_more_failure i k (completed p i k code ms q)))

  some_failure :
      (i k : ℕ) (code : Option ℕ) (ms : ℕ) (q : Queue)
      → 0 < length (failed p i k (completed p i k code ms q)).failures
  some_failure i k code ms q = omega (arith, one_more_failure i k (completed p i k code ms q))

  close-Counted :
      (i r k : ℕ) (code : Option ℕ) (ms : ℕ) (q : Queue)
      → Counted q
      → Counted (close p i r k code ms q)
  close-Counted i r k code ms q h =
      close_rule p Counted i r k code ms q
        (λ e. pull-Counted i (suc r) (completed p i k code ms q) (passed-Counted i k code ms q e h))
        (λ e bails. (
          failed-count i k code ms q e h,
          λ flag. bails,
          λ flag. some_failure i k code ms q,
          λ b flag. absurd (cc),
        ))
        (λ e on. pull-Counted i (suc r) (failed p i k (completed p i k code ms q)) (
          failed-count i k code ms q e h,
          h.1,
          λ flag. some_failure i k code ms q,
          λ b flag. absurd (cc),
        ))

  pub reach-Counted : (q : Queue) → Reach p q → Counted q
  reach-Counted =
      reach_rule p Counted (refl, λ e. absurd (cc), λ e. absurd (cc), λ b e. refl)
        (λ i q worker e r h. pull-Counted i 0 q h)
        (λ i r k code ms q worker e reached h. close-Counted i r k code ms q h)
