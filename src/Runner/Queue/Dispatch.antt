-- ===== src/Runner/Queue/Dispatch.antt =====
-- Which files the queue of scripts/runners/base-parallel-runner.js hands out, and in which order.
use rayls_sovereign_tests_au.Shared.{
  ℕ, zero, suc, ◌≤◌, ◌<◌, min, Option, List, [], ◌∷◌, map, length, ◌≡◌, refl, ap, ◌∙◌, arith,
}
use rayls_sovereign_tests_au.Runner.Queue.{Plan, Queue, Reach, pull, close, completed, failed}
use rayls_sovereign_tests_au.Runner.Queue.Rules.{pull_rule, close_rule, reach_rule}

-- The indices below `n`, the last first.
abbrev pub countdown : ℕ → List ℕ
countdown zero = []
countdown (suc n) = n ∷ countdown n

abbrev pub started_files : Queue → List ℕ
started_files q = map (λ c. c.file_index) q.children

module _ (p : Plan) where
  abbrev pub handed_out : Queue → ℕ
  handed_out q = min q.queue_pos (length p.files)

  abbrev InOrder : Queue → Type 0
  InOrder q = started_files q ≡ countdown (handed_out q)

  zero_min : 0 ≡ min 0 (length p.files)
  zero_min = omega arith

  past_end : (a n : ℕ) → n ≤ a → countdown (min a n) ≡ countdown (min (suc a) n)
  past_end a n h = ap countdown (omega arith)

  one_more : (a n : ℕ) → a < n → a ∷ countdown (min a n) ≡ countdown (min (suc a) n)
  one_more a n h =
      let same : min a n ≡ a = omega arith in
      let next : min (suc a) n ≡ suc a = omega arith in rw (same, next) refl

  pull-InOrder : (i r : ℕ) (q : Queue) → InOrder q → InOrder (pull p i r q)
  pull-InOrder i r q h =
      pull_rule p InOrder i r q (λ e. h) (λ e past. h ∙ past_end q.queue_pos (length p.files) past)
        (λ e more. ap (λ ks. q.queue_pos ∷ ks) h ∙ one_more q.queue_pos (length p.files) more)

  close-InOrder :
      (i r k : ℕ) (code : Option ℕ) (ms : ℕ) (q : Queue)
      → InOrder q
      → InOrder (close p i r k code ms q)
  close-InOrder i r k code ms q h =
      close_rule p InOrder i r k code ms q
        (λ e. pull-InOrder i (suc r) (completed p i k code ms q) h) (λ e bails. h)
        (λ e on. pull-InOrder i (suc r) (failed p i k (completed p i k code ms q)) h)

  -- Whatever the order in which the slots go on, the files that the slots have started are the first
  -- ones of the queue, each of them once and in the queue's order.
  pub started_files-countdown : (q : Queue) → Reach p q → started_files q ≡ countdown (handed_out q)
  started_files-countdown =
      reach_rule p InOrder (ap countdown zero_min) (λ i q below at_start r h. pull-InOrder i 0 q h)
        (λ i r k code ms q below at_child reached h. close-InOrder i r k code ms q h)
