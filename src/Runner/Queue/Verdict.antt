-- ===== src/Runner/Queue/Verdict.antt =====
-- What the end of the parallel phase of scripts/runners/base-parallel-runner.js says of the files.
use mathlib.Core.List.{Memᴰ}
use native.Mathlib.Decide.{ℕ_discrete}
use rayls_sovereign_tests_au.Shared.{
  ℕ, suc, ◌≤◌, ◌<◌, Option, some, true, false, length, ◌≡◌, refl, sym, subst, ap, ◌∙◌, ◌⊎◌, inl,
  inr, arith, Bool-cases,
}
use rayls_sovereign_tests_au.Runner.Queue.{
  Plan, Queue, running, finished, Step, wake, closes, Reach, AllFinished, pull, close, completed,
  failed, contains_text, start_file,
}
use rayls_sovereign_tests_au.Shared.Slots.{set}
use rayls_sovereign_tests_au.Runner.Queue.Rules.{pull_rule, close_rule, reach_rule, advance}
use rayls_sovereign_tests_au.Runner.Queue.Dispatch.{
  countdown, started_files, started_files-countdown, handed_out,
}
use rayls_sovereign_tests_au.Runner.Queue.Accounts.{HasClosed, reach-Accounted, set-other, set-same}
use rayls_sovereign_tests_au.Runner.Queue.Failures.{none_failed, reach-Counted}

module _ (p : Plan) where
  -- A slot has only finished where the flag is set or no file is left.
  abbrev Left : Queue → Type 0
  Left q = (i : ℕ) → q.slots i ≡ finished → (q.bail_flag ≡ true) ⊎ (length p.files ≤ q.queue_pos)

  start-Left : (i r : ℕ) (q : Queue) → Left q → Left (start_file p i r q.queue_pos (advance q))
  start-Left i r q h j e = elim (ℕ_discrete j i) [
    | yes same ↦
        (let e' : set i (running r q.queue_pos) q.slots i ≡ finished = rw same at e in
          let now : set i (running r q.queue_pos) q.slots i ≡ running r q.queue_pos =
            set-same i (running r q.queue_pos) q.slots in
          absurd (cc))
    | no apart ↦ (elim (h j (sym (set-other i j (running r q.queue_pos) q.slots apart) ∙ e)) [
      | inl flag ↦ inl flag
      | inr past ↦ inr (omega arith)
    ])
  ]

  pull-Left : (i r : ℕ) (q : Queue) → Left q → Left (pull p i r q)
  pull-Left i r q h =
      pull_rule p Left i r q (λ flag j e. inl flag) (λ flag past j e. inr (omega arith))
        (λ flag more. start-Left i r q h)

  close-Left :
      (i r k : ℕ) (code : Option ℕ) (ms : ℕ) (q : Queue) → Left q → Left (close p i r k code ms q)
  close-Left i r k code ms q h =
      close_rule p Left i r k code ms q (λ e. pull-Left i (suc r) (completed p i k code ms q) h)
        (λ e bails j ended. inl refl)
        (λ e on. pull-Left i (suc r) (failed p i k (completed p i k code ms q)) h)

  reach-Left : (q : Queue) → Reach p q → Left q
  reach-Left =
      reach_rule p Left (λ j e. absurd (cc)) (λ i q worker e r h. pull-Left i 0 q h)
        (λ i r k code ms q worker e reached h. close-Left i r k code ms q h)

  all_handed_out :
      (q : Queue)
      → 0 < p.worker_count
      → Reach p q
      → AllFinished p q
      → q.bail_flag ≡ false
      → length p.files ≤ q.queue_pos
  all_handed_out q worker r ended flag = elim (reach-Left q r 0 (ended 0 worker)) [
    | inl raised ↦ absurd (cc)
    | inr past ↦ past
  ]

  -- If there is a slot, all slots have finished and the phase was not given up, then each file was
  -- started exactly once, in the queue's order, and the child of each file has closed.
  pub finished-HasClosed :
      (q : Queue)
      → 0 < p.worker_count
      → Reach p q
      → AllFinished p q
      → q.bail_flag ≡ false
      → (started_files q ≡ countdown (length p.files))
        × ((k : ℕ) → k < length p.files → HasClosed p q k)
  finished-HasClosed q worker r ended flag =
      let past = all_handed_out q worker r ended flag in
      let whole : handed_out p q ≡ length p.files = omega arith in
      (
        started_files-countdown p q r ∙ ap countdown whole,
        λ k below. elim (reach-Accounted p q r k (omega arith)) [
          | inl closed ↦ closed
          | inr (j, run_index, at_work, run) ↦ absurd (let done = ended j at_work in cc)
        ],
      )

  no_failure-unset : (q : Queue) → Reach p q → length q.failures ≡ 0 → q.bail_flag ≡ false
  no_failure-unset q r empty = elim (Bool-cases q.bail_flag) [
    | inl raised ↦ absurd (omega (arith, (reach-Counted p q r).2 raised))
    | inr unset ↦ unset
  ]

  -- The verdict of the parallel phase is right: if there is a slot, all slots have finished and no
  -- failure is listed, then the child of each file has closed with code 0.
  pub finished-passed :
      (q : Queue)
      → 0 < p.worker_count
      → Reach p q
      → AllFinished p q
      → length q.failures ≡ 0
      → (k : ℕ) → k < length p.files
      → Memᴰ (k, some 0) q.closed
  finished-passed q worker r ended empty k below =
      let unset = no_failure-unset q r empty in
      let (code, m) = (finished-HasClosed q worker r ended unset).1 k below in
      let zero_code = none_failed q.closed k code (sym (reach-Counted p q r).0 ∙ empty) m in
      subst (λ c. Memᴰ (k, c) q.closed) zero_code m

  pull-stops : (i r : ℕ) (q : Queue) → q.bail_flag ≡ true → (pull p i r q).children ≡ q.children
  pull-stops i r q flag =
      pull_rule p (λ t. t.children ≡ q.children) i r q (λ e. refl) (λ e past. refl)
        (λ e more. absurd (cc))

  Step-stops : {s t : Queue} → Step p s t → s.bail_flag ≡ true → t.children ≡ s.children
  Step-stops {s} (wake i below e) flag = pull-stops i 0 s flag
  Step-stops {s} (closes i r k code ms below e) flag =
      close_rule p (λ t. t.children ≡ s.children) i r k code ms s
        (λ passed. pull-stops i (suc r) (completed p i k code ms s) flag) (λ failing bails. refl)
        (λ failing on. pull-stops i (suc r) (failed p i k (completed p i k code ms s)) flag)

  -- With --bail, no file is started any more as soon as a failure is listed.
  pub bail-stops :
      (s t : Queue)
      → contains_text "--bail" p.flags ≡ true
      → Reach p s
      → 0 < length s.failures
      → Step p s t
      → t.children ≡ s.children
  bail-stops s t bails r some_failed step = elim (Bool-cases s.bail_flag) [
    | inl raised ↦ Step-stops step raised
    | inr unset ↦ absurd (omega (arith, (reach-Counted p s r).3 bails unset))
  ]
