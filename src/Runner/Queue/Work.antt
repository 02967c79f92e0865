-- ===== src/Runner/Queue/Work.antt =====
-- How many steps the phase takes, and that it always comes to its end.
use native.Mathlib.Decide.{dec_lt}
use rayls_sovereign_tests_au.Shared.{
  none, ℕ, zero, suc, ◌+◌, ◌-◌, ◌≤◌, ◌<◌, Option, length, ◌≡◌, refl, ap, ◌⊎◌, inl, inr, arith,
}
use rayls_sovereign_tests_au.Shared.Slots.{set, total, total-set}
use rayls_sovereign_tests_au.Runner.Queue.{
  first_state, AllFinished, Plan, Queue, Slot, waiting, running, finished, Step, wake, closes,
  Reach, start, later, pull, close, completed, failed,
}
use rayls_sovereign_tests_au.Runner.Queue.Rules.{pull_rule, close_rule}

abbrev weight : Slot → ℕ
weight finished = 0
weight _ = 1

module _ (p : Plan) where
  abbrev pub busy : Queue → ℕ
  busy q = total weight p.worker_count q.slots

  -- The files that are left in the queue, and the slots that have not finished.
  abbrev pub work : Queue → ℕ
  work q = (length p.files - q.queue_pos) + busy q

  -- A slot that is not finished becomes something else.
  busy-set :
      (i : ℕ) (s : Slot) (q : Queue)
      → i < p.worker_count
      → weight (q.slots i) ≡ 1
      → total weight p.worker_count (set i s q.slots) + 1 ≡ busy q + weight s
  busy-set i s q below h = omega (arith, total-set weight p.worker_count i s q.slots below, h)

  pub pull-work :
      (i r : ℕ) (q : Queue)
      → i < p.worker_count
      → weight (q.slots i) ≡ 1
      → work q ≡ suc (work (pull p i r q))
  pull-work i r q below h =
      pull_rule p (λ t. work q ≡ suc (work t)) i r q
        (λ e. omega (arith, busy-set i finished q below h))
        (λ e past. omega (arith, busy-set i finished q below h))
        (λ e more. omega (arith, busy-set i (running r q.queue_pos) q below h))

  pub close-work :
      (i r k : ℕ) (code : Option ℕ) (ms : ℕ) (q : Queue)
      → i < p.worker_count
      → weight (q.slots i) ≡ 1
      → work q ≡ suc (work (close p i r k code ms q))
  close-work i r k code ms q below h =
      close_rule p (λ t. work q ≡ suc (work t)) i r k code ms q
        (λ e. pull-work i (suc r) (completed p i k code ms q) below h)
        (λ e bails. omega (arith, busy-set i finished q below h))
        (λ e on. pull-work i (suc r) (failed p i k (completed p i k code ms q)) below h)

  Step-work : {q t : Queue} → Step p q t → work q ≡ suc (work t)
  Step-work {q} (wake i below e) = pull-work i 0 q below (ap weight e)
  Step-work {q} (closes i r k code ms below e) = close-work i r k code ms q below (ap weight e)

  abbrev pub steps : {q : Queue} → Reach p q → ℕ
  steps start = 0
  steps (later r s) = suc (steps r)

  all_busy : (n : ℕ) → total weight n (λ i. waiting) ≡ n
  all_busy zero = refl
  all_busy (suc n) = omega (arith, all_busy n)

  -- Each step takes one file or finishes one slot: the steps made and the work left make up the
  -- number of files and slots.
  pub steps-work : {q : Queue} (r : Reach p q) → steps r + work q ≡ length p.files + p.worker_count
  steps-work start = omega (arith, all_busy p.worker_count)
  steps-work (later r s) = omega (arith, steps-work r, Step-work s)

  -- A slot that can make a step: at the end of its delay, or when its child closes, whatever the code
  -- and the time.
  abbrev pub GoesOn : Queue → ℕ → Type 0
  GoesOn q i =
      ((q.slots i ≡ waiting) × Step p q (pull p i 0 q))
      ⊎ ((r k : ℕ) × (q.slots i ≡ running r k)
          × ((code : Option ℕ) (ms : ℕ) → Step p q (close p i r k code ms q)))

  slot-GoesOn :
      (i : ℕ) (q : Queue) (s : Slot)
      → i < p.worker_count
      → q.slots i ≡ s
      → (s ≡ finished) ⊎ GoesOn q i
  slot-GoesOn i q waiting below e = inr (inl (e, wake i below e))
  slot-GoesOn i q (running r k) below e =
      inr (inr (r, k, e, λ code ms. closes i r k code ms below e))
  slot-GoesOn i q finished below e = inl refl

  abbrev pub FinishedBelow : ℕ → Queue → Type 0
  FinishedBelow n q = (i : ℕ) → i < n → q.slots i ≡ finished

  abbrev pub Unfinished : ℕ → Queue → Type 0
  Unfinished n q = (i : ℕ) × (i < n) × GoesOn q i

  pub FinishedBelow-suc :
      (n : ℕ) (q : Queue) → FinishedBelow n q → q.slots n ≡ finished → FinishedBelow (suc n) q
  FinishedBelow-suc n q all e i h = elim (dec_lt i n) [
    | yes below ↦ all i below
    | no last ↦ (let same : i ≡ n = omega arith in rw same e)
  ]

  look_below : (n : ℕ) (q : Queue) → n ≤ p.worker_count → FinishedBelow n q ⊎ Unfinished n q
  look_below zero q h = inl (λ i below. absurd (omega arith))
  look_below (suc n) q h = elim (slot-GoesOn n q (q.slots n) (omega arith) refl) [
    | inr on ↦ inr (n, omega arith, on)
    | inl e ↦ (elim (look_below n q (omega arith)) [
      | inl all ↦ inl (FinishedBelow-suc n q all e)
      | inr (i, below, on) ↦ inr (i, omega arith, on)
    ])
  ]

  -- The parallel phase comes to its end: it makes at most one step for each file and one for each slot,
  -- and as long as not all slots have finished, one of them can go on.
  pub phase_ends :
      (q : Queue) (r : Reach p q)
      → (steps r ≤ length p.files + p.worker_count)
        × (AllFinished p q ⊎ ((i : ℕ) × (i < p.worker_count) × GoesOn q i))
  phase_ends q r = (omega (arith, steps-work r), look_below p.worker_count q (omega arith))

  abbrev pub Ended : Type 0
  Ended = (t : Queue) × Reach p t × AllFinished p t

  -- The slots go on, whatever the codes of their children are, until all of them have finished.
  settle_from :
      (codes : ℕ → Option ℕ) (n : ℕ) (q : Queue)
      → Reach p q
      → work q ≤ n
      → AllFinished p q ⊎ Unfinished p.worker_count q
      → Ended
  settle_from codes n q r h (inl all) = (q, r, all)
  settle_from codes zero q r h (inr (i, below, inl (e, step))) =
      absurd (let less = pull-work i 0 q below (ap weight e) in omega arith)
  settle_from codes zero q r h (inr (i, below, inr (run, k, e, step))) =
      absurd (let less = close-work i run k none 0 q below (ap weight e) in omega arith)
  settle_from codes (suc n) q r h (inr (i, below, inl (e, step))) =
      let t = pull p i 0 q in
      settle_from codes n t (later r step)
        (let less = pull-work i 0 q below (ap weight e) in omega arith)
        (look_below p.worker_count t (omega arith))
  settle_from codes (suc n) q r h (inr (i, below, inr (run, k, e, step))) =
      let t = close p i run k (codes k) 0 q in
      settle_from codes n t (later r (step (codes k) 0))
        (let less = close-work i run k (codes k) 0 q below (ap weight e) in omega arith)
        (look_below p.worker_count t (omega arith))

  unfoldable pub settle : (codes : ℕ → Option ℕ) → Ended
  unfolding settle_from look_below slot-GoesOn
  settle codes =
      settle_from codes (length p.files + p.worker_count) first_state start
        (omega (arith, steps-work start)) (look_below p.worker_count first_state (omega arith))
