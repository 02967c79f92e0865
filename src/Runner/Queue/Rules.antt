-- ===== src/Runner/Queue/Rules.antt =====
-- What has to be shown of the steps of the queue, to know a property of every state that a phase
-- reaches.
use rayls_sovereign_tests_au.Shared.{
  ℕ, suc, ◌≤◌, ◌<◌, Option, true, false, leb, length, ◌≡◌, inl, inr, arith, Bool-cases, leb→le,
}
use rayls_sovereign_tests_au.Runner.Queue.{
  Plan, Queue, waiting, running, wake, closes, Reach, start, later, first_state, pull, leave,
  start_file, close, completed, failed, contains_text, is_success,
}

abbrev pub advance : Queue → Queue
advance q = record q { queue_pos = suc q.queue_pos }

leb-lt : (a b : ℕ) → leb a b ≡ false → b < a
leb-lt a b h = ground arith

module _ {ℓ} (p : Plan) (P : Queue → Type ℓ) where
  -- The three ways of a turn of the loop: it stops for the flag, finds no file, or starts one.
  pub pull_rule :
      (i r : ℕ) (q : Queue)
      → (q.bail_flag ≡ true → P (leave p i q))
      → (q.bail_flag ≡ false → length p.files ≤ q.queue_pos → P (leave p i (advance q)))
      → (q.bail_flag ≡ false
          → q.queue_pos < length p.files
          → P (start_file p i r q.queue_pos (advance q)))
      → P (pull p i r q)
  unfolding pull
  pull_rule i r q stops past more = elim (Bool-cases q.bail_flag) [
    | inl e ↦ rw e (rw e at (stops e))
    | inr e ↦ (elim (Bool-cases (leb (length p.files) q.queue_pos)) [
      | inl h ↦ rw (e, h) (rw e at (past e (leb→le (length p.files) q.queue_pos h)))
      | inr h ↦ rw (e, h) (rw e at (more e (leb-lt (length p.files) q.queue_pos h)))
    ])
  ]

  -- The three ways on from a child that closed: it passed, it failed and the phase is given up, or it
  -- failed and the slot goes on.
  pub close_rule :
      (i r k : ℕ) (code : Option ℕ) (ms : ℕ) (q : Queue)
      → (is_success code ≡ true → P (pull p i (suc r) (completed p i k code ms q)))
      → (is_success code ≡ false
          → contains_text "--bail" p.flags ≡ true
          → P (leave p i (record (failed p i k (completed p i k code ms q)) { bail_flag = true })))
      → (is_success code ≡ false
          → contains_text "--bail" p.flags ≡ false
          → P (pull p i (suc r) (failed p i k (completed p i k code ms q))))
      → P (close p i r k code ms q)
  unfolding close
  close_rule i r k code ms q passed given_up on = elim (Bool-cases (is_success code)) [
    | inl e ↦ rw e (passed e)
    | inr e ↦ (elim (Bool-cases (contains_text "--bail" p.flags)) [
      | inl h ↦ rw (e, h) (given_up e h)
      | inr h ↦ rw (e, h) (on e h)
    ])
  ]

  -- What holds at the start and is kept by both kinds of step holds in every state of a phase.
  pub reach_rule :
      P first_state
      → ((i : ℕ) (q : Queue)
          → i < p.worker_count
          → q.slots i ≡ waiting
          → Reach p q
          → P q
          → P (pull p i 0 q))
      → ((i r k : ℕ) (code : Option ℕ) (ms : ℕ) (q : Queue)
          → i < p.worker_count
          → q.slots i ≡ running r k
          → Reach p q
          → P q
          → P (close p i r k code ms q))
      → (q : Queue) → Reach p q
      → P q
  reach_rule first woken closed q start = first
  reach_rule first woken closed q (later {s} reached (wake i below at_start)) =
      woken i s below at_start reached (reach_rule first woken closed s reached)
  reach_rule first woken closed q (later {s} reached (closes i r k code ms below at_child)) =
      closed i r k code ms s below at_child reached (reach_rule first woken closed s reached)
