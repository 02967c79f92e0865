-- ===== src/Runner/Queue/Accounts.antt =====
-- Every file that the queue of scripts/runners/base-parallel-runner.js has handed out is accounted
-- for: its child has closed, or a slot is running it.
use mathlib.Core.List.{Memᴰ}
use native.Mathlib.Decide.{ℕ_discrete}
use rayls_sovereign_tests_au.Shared.{
  ℕ, suc, ◌≤◌, ◌<◌, Option, length, ◌≡◌, ◌≢◌, sym, ap, ◌∙◌, ◌⊎◌, inl, inr, arith,
}
use rayls_sovereign_tests_au.Shared.Slots.{set}
use rayls_sovereign_tests_au.Runner.Queue.{
  Plan, Queue, Slot, waiting, running, finished, Reach, pull, leave, close, completed, failed,
  start_file,
}
use rayls_sovereign_tests_au.Runner.Queue.Rules.{pull_rule, close_rule, reach_rule, advance}
use rayls_sovereign_tests_au.Runner.Queue.Dispatch.{handed_out}

pub set-same : {A : Type 0} (i : ℕ) (a : A) (f : ℕ → A) → set i a f i ≡ a
set-same i a f = ground arith

pub set-other : {A : Type 0} (i j : ℕ) (a : A) (f : ℕ → A) → j ≢ i → set i a f j ≡ f j
set-other i j a f h = ground arith

module _ (p : Plan) where
  -- The child of the file has closed with some code.
  abbrev pub HasClosed : Queue → ℕ → Type 0
  HasClosed q k = (code : Option ℕ) × Memᴰ (k, code) q.closed

  abbrev RunningBut : ℕ → Queue → ℕ → Type 0
  RunningBut i q k = (j r : ℕ) × (j ≢ i) × (j < p.worker_count) × (q.slots j ≡ running r k)

  abbrev pub IsRunning : Queue → ℕ → Type 0
  IsRunning q k = (j r : ℕ) × (j < p.worker_count) × (q.slots j ≡ running r k)

  -- A file that was handed out has closed, or a slot is running it; and the same without the slot `i`.
  abbrev pub Accounted : Queue → Type 0
  Accounted q = (k : ℕ) → k < handed_out p q → HasClosed q k ⊎ IsRunning q k

  abbrev AccountedBut : ℕ → Queue → Type 0
  AccountedBut i q = (k : ℕ) → k < handed_out p q → HasClosed q k ⊎ RunningBut i q k

  still-IsRunning :
      (i : ℕ) (s : Slot) (q : Queue) (k : ℕ)
      → RunningBut i q k
      → IsRunning (record q { slots = set i s q.slots }) k
  still-IsRunning i s q k (j, r, apart, below, e) = (j, r, below, set-other i j s q.slots apart ∙ e)

  leave-Accounted : (i : ℕ) (q : Queue) → AccountedBut i q → Accounted (leave p i q)
  leave-Accounted i q h k below = elim (h k below) [
    | inl closed ↦ inl closed
    | inr run ↦ inr (still-IsRunning i finished q k run)
  ]

  advance-AccountedBut :
      (i : ℕ) (q : Queue)
      → length p.files ≤ q.queue_pos
      → AccountedBut i q
      → AccountedBut i (advance q)
  advance-AccountedBut i q past h k below = h k (omega arith)

  start-Accounted :
      (i r : ℕ) (q : Queue)
      → i < p.worker_count
      → AccountedBut i q
      → Accounted (start_file p i r q.queue_pos (advance q))
  start-Accounted i r q worker h k below = elim (ℕ_discrete k q.queue_pos) [
    | yes e ↦ inr (i, r, worker, rw e (set-same i (running r q.queue_pos) q.slots))
    | no apart ↦ (elim (h k (omega arith)) [
      | inl closed ↦ inl closed
      | inr run ↦ inr (still-IsRunning i (running r q.queue_pos) q k run)
    ])
  ]

  pull-Accounted :
      (i r : ℕ) (q : Queue) → i < p.worker_count → AccountedBut i q → Accounted (pull p i r q)
  pull-Accounted i r q worker h =
      pull_rule p Accounted i r q (λ e. leave-Accounted i q h)
        (λ e past. leave-Accounted i (advance q) (advance-AccountedBut i q past h))
        (λ e more. start-Accounted i r q worker h)

  waiting-AccountedBut : (i : ℕ) (q : Queue) → q.slots i ≡ waiting → Accounted q → AccountedBut i q
  waiting-AccountedBut i q e h k below = elim (h k below) [
    | inl closed ↦ inl closed
    | inr (j, r, worker, run) ↦ (elim (ℕ_discrete j i) [
      | yes same ↦ absurd (let run' : q.slots i ≡ running r k = rw same at run in cc)
      | no apart ↦ inr (j, r, apart, worker, run)
    ])
  ]

  same_file : (r k r' k' : ℕ) → Slot.running r k ≡ running r' k' → k' ≡ k
  same_file r k r' k' h = cc

  completed-AccountedBut :
      (i r k : ℕ) (code : Option ℕ) (ms : ℕ) (q : Queue)
      → q.slots i ≡ running r k
      → Accounted q
      → AccountedBut i (completed p i k code ms q)
  completed-AccountedBut i r k code ms q e h k' below = elim (h k' below) [
    | inl (code', m) ↦ inl (code', Memᴰ.tail m)
    | inr (j, r', worker, run) ↦ (elim (ℕ_discrete j i) [
      | yes same ↦
          (let run' : q.slots i ≡ running r' k' = rw same at run in
            inl (code, Memᴰ.head (ap (λ n. (n, code)) (same_file r k r' k' (sym e ∙ run')))))
      | no apart ↦ inr (j, r', apart, worker, run)
    ])
  ]

  close-Accounted :
      (i r k : ℕ) (code : Option ℕ) (ms : ℕ) (q : Queue)
      → i < p.worker_count
      → q.slots i ≡ running r k
      → Accounted q
      → Accounted (close p i r k code ms q)
  close-Accounted i r k code ms q worker e h =
      let but = completed-AccountedBut i r k code ms q e h in
      close_rule p Accounted i r k code ms q
        (λ passed. pull-Accounted i (suc r) (completed p i k code ms q) worker but)
        (λ failing bails. leave-Accounted i (completed p i k code ms q) but)
        (λ failing on.
          pull-Accounted i (suc r) (failed p i k (completed p i k code ms q)) worker but)

  pub reach-Accounted : (q : Queue) → Reach p q → Accounted q
  reach-Accounted =
      reach_rule p Accounted (λ k below. absurd (omega arith))
        (λ i q worker e r h. pull-Accounted i 0 q worker (waiting-AccountedBut i q e h))
        (λ i r k code ms q worker e reached h. close-Accounted i r k code ms q worker e h)
